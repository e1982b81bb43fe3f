-- ===== src/Auth/Laws.antt =====
-- What a verified token is.
use kd_server.Common.{
  ◌≡◌, ◌⊎◌, inl, inr, Bool, true, false, arith, Result-cases, any, Result, ok, err, Error, wrap,
}
use kd_server.Text.{Text, same, is_blank, same_iff}
use mathlib.Core.Path.{subst₂}
use kd_server.Time.{Time}
use kd_server.Auth.{
  Claims, ParsedToken, ParserOptions, Jwt, HmacVerifier, hs256, invalid_token, key_func, options,
  verify,
}

-- What the documentation of the JWT library says: a token that is parsed carries a signature that was
-- checked with the key of its algorithm, which is one of the valid methods.
pub record ChecksSignatures ⦃j : Jwt⦄ (signed : Text → Text → Text → Bool) : Type 0 where
  pub parsed_signed :
      (token : Text) (key : Text → Result Text) (o : ParserOptions) (p : ParsedToken)
      → j.parse_with_claims token key o ≡ ok p
      → (alg k : Text) × (any (same alg) o.valid_methods ≡ true)
        × (key alg ≡ ok k)
        × (signed alg k token ≡ true)

module _ ⦃j : Jwt⦄ where
  -- An accepted token was parsed as valid, its tenant is not blank, and it is signed with the server's
  -- secret by HS256.
  pub verify_sound :
      (signed : Text → Text → Text → Bool)
      → ChecksSignatures signed
      → (v : HmacVerifier) (now : Time) (token : Text) (c : Claims) → verify v now token ≡ ok c
      → (is_blank token ≡ false)
        × (is_blank c.tenant ≡ false)
        × (signed hs256 v.secret token ≡ true)
        × (j.parse_with_claims token (key_func v) (options now)
            ≡ ok (record { claims = c; valid = true }))
  unfolding verify
  verify_sound signed law v now token c h =
      elim (Result-cases (j.parse_with_claims token (key_func v) (options now))) [
        | inl (p, parsed) ↦
            let (alg, k, one_of, key, good) =
              law.parsed_signed token (key_func v) (options now) p parsed in
            let is_hs256 : same alg hs256 ≡ true = ground arith in
            let alg_eq : alg ≡ hs256 = (same_iff _ _).0 is_hs256 in
            let key_eq : k ≡ v.secret = ground arith in
            let trusted : signed hs256 v.secret token ≡ true =
              subst₂ (λ a x. signed a x token ≡ true) alg_eq key_eq good in
            (ground arith, ground arith, trusted, ground arith)
        | inr (e, failed) ↦ absurd (ground arith)
      ]

  -- Every failure of the verifier is `ErrInvalidToken`, by itself or wrapped.
  pub verify_error_cases :
      (v : HmacVerifier) (now : Time) (token : Text) (e : Error)
      → verify v now token ≡ err e
      → (e ≡ invalid_token) ⊎ (e ≡ wrap "auth: verify" invalid_token)
  unfolding verify
  verify_error_cases v now token e h = ground arith
