-- ===== src/Auth.antt =====
-- internal/auth/jwt.go: the verifier of HS256 tokens. The JWT library is the parameter `Jwt`.
pub mod Laws
mod Tests
use kd_server.Common.{
  ℕ, Bool, true, false, not, List, [], ◌∷◌, Result, ok, err, Error, message, wrap, ◌>>=◌, ◌>>◌,
  guard, is_ok, if◌then◌else◌,
}
use kd_server.Text.{Text, codes, same, is_blank}
use kd_server.Time.{Time}

pub record Claims : Type 0 where
  pub tenant : Text

pub record ParsedToken : Type 0 where
  pub claims : Claims
  pub valid : Bool

-- The options that `Verify` gives to the parser.
pub record ParserOptions : Type 0 where
  pub valid_methods : List Text
  pub issued_at : Bool
  pub leeway_seconds : ℕ
  pub now : Time

-- `jwt.ParseWithClaims(token, claims, keyFunc, options…)`; the key function takes the name of the
-- token's algorithm.
pub record Jwt : Type 0 where
  pub parse_with_claims : Text → (Text → Result Text) → ParserOptions → Result ParsedToken

abbrev pub invalid_token : Error
invalid_token = message "auth: invalid token"

abbrev pub hs256 : Text
hs256 = codes "HS256"

pub record HmacVerifier : Type 0 where
  pub secret : Text

unfoldable pub new_hmac_verifier : Text → Result HmacVerifier
new_hmac_verifier secret = do
  guard (not (is_blank secret)) (message "auth: secret is required")
  ok (record { secret = secret })

-- The key function of `Verify`.
abbrev pub key_func : HmacVerifier → Text → Result Text
key_func v alg = if same alg hs256 then ok v.secret else err invalid_token

abbrev pub options : Time → ParserOptions
options now = record {
  valid_methods = hs256 ∷ [];
  issued_at = true;
  leeway_seconds = 30;
  now = now;
}

abbrev verify_error : {A : Type 0} → Result A → Result A
verify_error (ok a) = ok a
verify_error (err e) = err (wrap "auth: verify" invalid_token)

module _ ⦃j : Jwt⦄ where
  unfoldable pub verify : HmacVerifier → (now : Time) → Text → Result Claims
  verify v now token = do
    guard (not (is_blank token)) invalid_token
    parsed ← verify_error (j.parse_with_claims token (key_func v) (options now))
    guard parsed.valid invalid_token
    guard (not (is_blank parsed.claims.tenant)) invalid_token
    ok parsed.claims
