-- ===== src/Http/Middleware/Laws.antt =====
-- Which requests the middleware lets through, and with which tenant.
use kd_server.Common.{
  ℕ, String, ◌≡◌, refl, ap, ◌∙◌, ◌⊎◌, inl, inr, true, false, some, arith, Bool-cases, Option-cases,
  Result-cases, Result, ok, err, Error,
}
use kd_server.Text.{Text, codes, same, is_empty, is_blank, trim_space, has_prefix, same_iff}
use mathlib.Core.Path.{subst}
use kd_server.Auth.{Claims}
use kd_server.Http.{Reply, failed, Handler}
use kd_server.Http.Middleware.{
  Request, Verifiers, bearer, after_key, after_token, with_token, auth_middleware,
}

module _ {S : Type 0} (v : Verifiers S) where
  -- The credential is good for the tenant: an API key that its verifier accepts, or a token whose claims
  -- name the tenant. The verifier leaves the state `s'`.
  pub data Credential (tenant token : Text) (s s' : S) : Type 0 where
    by_key :
        has_prefix (codes "key_") token ≡ true
        → v.verify_api_key tenant token s ≡ (s', ok tt)
        → Credential tenant token s s'
    by_token :
        (c : Claims)
        → has_prefix (codes "key_") token ≡ false
        → v.verify token s ≡ (s', ok c)
        → c.tenant ≡ tenant
        → Credential tenant token s s'

  -- No bearer token of the request is a credential for the tenant.
  abbrev pub NoCredential : Request → Text → S → Type 0
  NoCredential r tenant s =
      (token : Text) (z : S)
      → bearer (trim_space r.authorization) ≡ some token
      → ¬ Credential tenant token s z

  pub data Outcome {B : Type 0} (next : Text → Handler S B) (r : Request) (s : S)
      (out : S × Reply B) : Type 0 where
    passed :
        (token : Text) (s' : S)
        → is_blank r.tenant_header ≡ false
        → bearer (trim_space r.authorization) ≡ some token
        → Credential (trim_space r.tenant_header) token s s'
        → out ≡ next (trim_space r.tenant_header) s'
        → Outcome next r s out
    refused :
        (s' : S) (status : ℕ) (why : String)
        → (is_blank r.tenant_header ≡ true) ⊎ NoCredential r (trim_space r.tenant_header) s
        → (status ≡ 400) ⊎ (status ≡ 401) ⊎ (status ≡ 403)
        → out ≡ (s', failed status why)
        → Outcome next r s out

  NoCredential-for :
      (r : Request) (tenant token : Text) (s : S)
      → bearer (trim_space r.authorization) ≡ some token
      → ((z : S) → ¬ Credential tenant token s z)
      → NoCredential r tenant s
  NoCredential-for r tenant token s found none_fits t z e c =
      let one : t ≡ token = cc in none_fits z (subst (λ x. Credential tenant x s z) one c)

  key_refused :
      (tenant token : Text) (s z : S) (e : Error)
      → has_prefix (codes "key_") token ≡ true
      → (v.verify_api_key tenant token s).1 ≡ err e
      → ¬ Credential tenant token s z
  key_refused tenant token s z e p bad (by_key q good) =
      cc (ap (λ (x : S × Result (Unit {0})). x.1) good, bad)
  key_refused tenant token s z e p bad (by_token c q good names) = cc (p, q)

  token_refused :
      (tenant token : Text) (s z : S) (e : Error)
      → has_prefix (codes "key_") token ≡ false
      → (v.verify token s).1 ≡ err e
      → ¬ Credential tenant token s z
  token_refused tenant token s z e p bad (by_key q good) = cc (p, q)
  token_refused tenant token s z e p bad (by_token c q good names) =
      cc (ap (λ (x : S × Result Claims). x.1) good, bad)

  token_of_other :
      (tenant token : Text) (s z : S) (c : Claims)
      → has_prefix (codes "key_") token ≡ false
      → (v.verify token s).1 ≡ ok c
      → same c.tenant tenant ≡ false
      → ¬ Credential tenant token s z
  token_of_other tenant token s z c p parsed differs (by_key q good) = cc (p, q)
  token_of_other tenant token s z c p parsed differs (by_token d q good names) =
      let one : c ≡ d = cc (ap (λ (x : S × Result Claims). x.1) good, parsed) in
      let equal : same c.tenant tenant ≡ true =
        (same_iff _ _).1 (ap (λ (x : Claims). x.tenant) one ∙ names) in
      cc (equal, differs)

  with_token-Outcome :
      {B : Type 0} (next : Text → Handler S B) (r : Request) (s : S) (token : Text)
      → is_blank r.tenant_header ≡ false
      → bearer (trim_space r.authorization) ≡ some token
      → Outcome next r s (with_token v next (trim_space r.tenant_header) (some token) s)
  unfolding with_token after_key after_token
  with_token-Outcome next r s token named found =
      let t = trim_space r.tenant_header in
      let nobody : ((z : S) → ¬ Credential t token s z) → NoCredential r t s =
        NoCredential-for r t token s found in
      elim (Bool-cases (has_prefix (codes "key_") token)) [
        | inl is_key ↦ elim (Result-cases (v.verify_api_key t token s).1) [
          | inl (u, good) ↦
              passed token _ named found
                (by_key is_key (λ i. ((v.verify_api_key t token s).0, good i))) (ground arith)
          | inr (e, bad) ↦
              refused (v.verify_api_key t token s).0 401 "invalid API key"
                (inr (nobody (λ z. key_refused t token s z e is_key bad))) (inr (inl refl))
                (ground arith)
        ]
        | inr is_jwt ↦ elim (Result-cases (v.verify token s).1) [
          | inl (c, good) ↦ elim (Bool-cases (same c.tenant t)) [
            | inl names ↦
                passed token _ named found
                  (by_token c is_jwt (λ i. ((v.verify token s).0, good i)) ((same_iff _ _).0 names))
                  (ground arith)
            | inr differs ↦
                refused (v.verify token s).0 403 "tenant mismatch"
                  (inr (nobody (λ z. token_of_other t token s z c is_jwt good differs)))
                  (inr (inr refl)) (ground arith)
          ]
          | inr (e, bad) ↦
              refused (v.verify token s).0 401 "invalid token"
                (inr (nobody (λ z. token_refused t token s z e is_jwt bad))) (inr (inl refl))
                (ground arith)
        ]
      ]

  -- Either the tenant header is not blank, the bearer token of the request is a credential for the
  -- trimmed header, and the answer is the handler's for that tenant; or the header is blank or no bearer
  -- token of the request is a credential for it, and the answer is an error 400, 401 or 403.
  pub auth_middleware-Outcome :
      {B : Type 0} (next : Text → Handler S B) (r : Request) (s : S)
      → Outcome next r s (auth_middleware v next r s)
  unfolding auth_middleware
  auth_middleware-Outcome next r s = elim (Bool-cases (is_empty (trim_space r.tenant_header))) [
    | inl blank ↦ refused s 400 "missing tenant header" (inl blank) (inl refl) (rw blank)
    | inr named ↦ elim (Option-cases (bearer (trim_space r.authorization))) [
      | inl missing ↦
          refused s 401 "missing authorization" (inr (λ x z e c. cc)) (inr (inl refl))
            (rw (named, missing))
      | inr (token, found) ↦ rw (named, found) (with_token-Outcome next r s token named found)
    ]
  ]
