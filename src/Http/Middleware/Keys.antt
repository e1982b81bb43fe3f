-- ===== src/Http/Middleware/Keys.antt =====
-- The middleware in front of the API keys of the store.
use kd_server.Common.{ℕ, ◌≡◌, sym, ap, ◌∙◌, true, false, some, Result, ok}
use kd_server.Text.{Text, codes, trim_space, Casing, has_prefix}
use kd_server.Mongo.{Collection, Action}
use kd_server.Mongo.Laws.{IsMongo}
use kd_server.Tenant.{ApiKey, Digest}
use kd_server.Tenant.Keys.{verify_api_key}
use kd_server.Tenant.Keys.Revoke.{Accepted, verify_api_key-Accepted}
use kd_server.Auth.{Claims}
use mathlib.Core.Path.{subst}
use kd_server.Http.{Reply, failed, done, Handler}
use kd_server.Http.Middleware.{Request, Verifiers, bearer, auth_middleware}
use kd_server.Http.Middleware.Laws.{by_key, by_token, passed, refused, auth_middleware-Outcome}

module _ ⦃u : Casing⦄ ⦃d : Digest⦄ {K B : Type 0} (keys : Collection K ApiKey)
    (mongo : IsMongo keys) (tokens : Text → Action K Claims) (next : Text → Handler K B) where
  abbrev pub verifiers : Verifiers K
  verifiers = record { verify = tokens; verify_api_key = verify_api_key keys }

  -- Where a request with an API key is answered by a payload, the store has a key that is not revoked for
  -- the tenant that `normalizeSlug` makes of the header, with the hash of the request's secret.
  pub auth_middleware-Accepted :
      (r : Request) (s s' : K) (status : ℕ) (payload : B) (token : Text)
      → auth_middleware verifiers next r s ≡ (s', done status payload)
      → bearer (trim_space r.authorization) ≡ some token
      → has_prefix (codes "key_") token ≡ true
      → Accepted (keys.docs s) (trim_space r.tenant_header) token
  auth_middleware-Accepted r s s' status payload token h found is_key =
      elim (auth_middleware-Outcome verifiers next r s) [
        | passed other t _ found_other fits _ ↦
            let one : other ≡ token = cc (found, found_other) in
            elim fits [
              | by_key _ good ↦
                  verify_api_key-Accepted keys mongo (trim_space r.tenant_header) token s (
                    subst (λ x. (verify_api_key keys (trim_space r.tenant_header) x s).1 ≡ ok tt)
                      one (ap (λ (x : K × Result (Unit {0})). x.1) good))
              | by_token c is_jwt _ _ ↦ absurd (
                  let no_key : has_prefix (codes "key_") token ≡ false =
                    subst (λ x. has_prefix (codes "key_") x ≡ false) one is_jwt in
                  cc (no_key, is_key))
            ]
        | refused t code why _ _ out ↦ absurd (
            let clash : Path (Reply B) (failed code why) (done status payload) =
              ap (λ (x : K × Reply B). x.1) (sym out ∙ h) in
            cc clash)
      ]
