-- ===== src/Http/Middleware.antt =====
-- `authMiddleware` of internal/http/server.go. The verifiers are the interfaces `auth.Verifier` and
-- `auth.APIKeyVerifier`.
pub mod Laws
pub mod Keys
mod Tests
use kd_server.Common.{
  ℕ, zero, suc, ◌+◌, ◌-◌, ◌*◌, ◌/◌, ◌%◌, ◌^◌, ◌≤◌, ◌<◌, String, ◌≡◌, refl, sym, ap, ◌∙◌, ◌≢◌, ◌↔◌,
  ◌⊎◌, inl, inr, Bool, true, false, not, ◌&&◌, ◌||◌, Option, none, some, List, [], ◌∷◌, ◌++◌, map,
  Memᴰ, arith, ltb, leb, ◌==◌, ==_iff, within, if◌then◌else◌, Bool-cases, Option-cases,
  Result-cases, length, take, drop, any, all, keep, length-append, All, All-append, All-map,
  All-mem, Result, ok, err, Error, message, about, wrap, fault, no_documents, duplicate_key,
  is_no_documents,
}
use kd_server.Text.{
  Text, codes, same, is_empty, is_blank, is_space, trim_space, Casing, to_lower, to_upper,
  has_prefix, trim_prefix, cut, same_iff, same_refl,
}
use kd_server.Auth.{Claims}
use kd_server.Mongo.{Action}
use kd_server.Http.{Reply, failed, done, Handler}

pub record Request : Type 0 where
  pub tenant_header : Text  -- r.Header.Get(headerName)
  pub authorization : Text  -- r.Header.Get("Authorization")

pub record Verifiers (S : Type 0) : Type 0 where
  pub verify : Text → Action S Claims
  pub verify_api_key : Text → Text → Action S (Unit {0})

abbrev fold_ascii : ℕ → ℕ
fold_ascii c = if within b'A' b'Z' c then c + 32 else c

-- `len(authHeader) < 7 || !strings.EqualFold(authHeader[:7], "Bearer ")`, and the token behind it.
-- No letter beyond ASCII folds to one of `Bearer`.
unfoldable pub bearer : Text → Option Text
bearer header =
    if same (map fold_ascii (take 7 header)) (codes "bearer ")
    then some (trim_space (drop 7 header))
    else none

module _ {S B : Type 0} (v : Verifiers S) (next : Text → Handler S B) where
  -- What follows the call of a verifier.
  after_key : Text → S × Result (Unit {0}) → S × Reply B
  after_key tenant (s, ok _) = next tenant s
  after_key tenant (s, err _) = (s, failed 401 "invalid API key")

  after_token : Text → S × Result Claims → S × Reply B
  after_token tenant (s, ok claims) =
      if same claims.tenant tenant then next tenant s else (s, failed 403 "tenant mismatch")
  after_token tenant (s, err _) = (s, failed 401 "invalid token")

  with_token : Text → Option Text → Handler S B
  with_token tenant none s = (s, failed 401 "missing authorization")
  with_token tenant (some token) s =
      if has_prefix (codes "key_") token
      then after_key tenant (v.verify_api_key tenant token s)
      else after_token tenant (v.verify token s)

  unfoldable pub auth_middleware : Request → Handler S B
  unfolding after_key after_token with_token
  auth_middleware r s =
      let tenant = trim_space r.tenant_header in
      if is_empty tenant
      then (s, failed 400 "missing tenant header")
      else with_token tenant (bearer (trim_space r.authorization)) s
