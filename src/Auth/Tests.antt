-- ===== src/Auth/Tests.antt =====
-- The verifier with a toy parser, which takes `HS256:<secret>:<tenant>` for a signed token.

use kd_server.Common.{
  ◌≡◌, refl, ◌⊎◌, inl, inr, Bool, true, false, ◌&&◌, none, some, [], arith, if◌then◌else◌,
  Result-cases, any, Result, ok, err, message, wrap,
}
use kd_server.Text.{Text, codes, same, is_empty, is_space, trim_space, cut}
use kd_server.Samples.{noon}
use kd_server.Auth.{
  ParsedToken, ParserOptions, Jwt, HmacVerifier, hs256, invalid_token, key_func, options, verify,
}
use kd_server.Auth.Laws.{ChecksSignatures, verify_sound, verify_error_cases}

code : Unit {0}
unfolding verify trim_space is_space cut
code = tt

abbrev signed_with : Text → Text → Text → Bool
signed_with alg key token = elim (cut b':' token) [
  | none ↦ false
  | some (a, rest) ↦ elim (cut b':' rest) [ none ↦ false | some (k, _) ↦ same a alg && same k key ]
]

abbrev tenant_of : Text → Text
tenant_of token = elim (cut b':' token) [
  | none ↦ []
  | some (_, rest) ↦ elim (cut b':' rest) [ none ↦ [] | some (_, t) ↦ t ]
]

abbrev with_key : Text → Result Text → Result ParsedToken
with_key token (ok k) =
    if signed_with hs256 k token
    then ok (record { claims = record { tenant = tenant_of token }; valid = true })
    else err (message "signature is invalid")
with_key token (err e) = err e

abbrev parse : Text → (Text → Result Text) → ParserOptions → Result ParsedToken
parse token key o =
    if any (same hs256) o.valid_methods
    then with_key token (key hs256)
    else err (message "signing method is invalid")

instance abbrev toy_jwt : Jwt
toy_jwt = record { parse_with_claims = parse }

checked :
    (token : Text) (key : Text → Result Text) (o : ParserOptions) (p : ParsedToken)
    → parse token key o ≡ ok p
    → (alg k : Text) × (any (same alg) o.valid_methods ≡ true)
      × (key alg ≡ ok k)
      × (signed_with alg k token ≡ true)
checked token key o p h = elim (Result-cases (key hs256)) [
  | inl (k, found) ↦ (hs256, k, ground arith, found, ground arith)
  | inr (e, failed) ↦ absurd (ground arith)
]

toy_checks : ChecksSignatures signed_with
toy_checks = record { parsed_signed = checked }

abbrev verifier : HmacVerifier
verifier = record { secret = codes "s3" }

verify_sound_example :
    (is_empty (trim_space (codes "HS256:s3:acme")) ≡ false)
    × (is_empty (trim_space (codes "acme")) ≡ false)
    × (signed_with hs256 (codes "s3") (codes "HS256:s3:acme") ≡ true)
    × (parse (codes "HS256:s3:acme") (key_func verifier) (options noon)
        ≡ ok (record { claims = record { tenant = codes "acme" }; valid = true }))
unfolding code
verify_sound_example =
    verify_sound signed_with toy_checks verifier noon (codes "HS256:s3:acme")
      (record { tenant = codes "acme" }) refl

verify_error_cases_example :
    (wrap "auth: verify" invalid_token ≡ invalid_token)
    ⊎ (wrap "auth: verify" invalid_token ≡ wrap "auth: verify" invalid_token)
unfolding code
verify_error_cases_example =
    verify_error_cases verifier noon (codes "HS256:s4:acme") (wrap "auth: verify" invalid_token)
      refl
