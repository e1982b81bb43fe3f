-- ===== src/Http/Middleware/Tests.antt =====
-- The middleware in front of a handler that answers with its tenant.
use kd_server.Common.{String, ◌≡◌, refl, none, List, [], ◌∷◌, if◌then◌else◌, ok, err, no_documents}
use kd_server.Text.{Text, codes, same, is_space, trim_space, has_prefix, cut, lower_rune, replace}
use kd_server.Text.Encode.{hex_encode, hex_decode, hex_digit}
use kd_server.Mongo.{Action}
use kd_server.Mongo.Memory.{memory, memory-IsMongo}
use kd_server.Samples.{plain_casing, toy_digest, noon}
use kd_server.Auth.{Claims}
use kd_server.Tenant.{ApiKey}
use kd_server.Tenant.Slug.{normalize_slug, matches_slug_pattern, is_slug_char}
use kd_server.Tenant.Keys.{verify_api_key, check_record}
use kd_server.Tenant.Keys.Revoke.{Accepted}
use kd_server.Http.{failed, done, Handler}
use kd_server.Http.Middleware.{Request, Verifiers, bearer, auth_middleware}
use kd_server.Http.Middleware.Laws.{Outcome, auth_middleware-Outcome}
use kd_server.Http.Middleware.Keys.{auth_middleware-Accepted}

code : Unit {0}
unfolding auth_middleware bearer trim_space is_space has_prefix memory verify_api_key check_record
    normalize_slug matches_slug_pattern is_slug_char lower_rune replace cut hex_encode hex_decode
    hex_digit
code = tt

abbrev verifiers : Verifiers (Unit {0})
verifiers = record {
  verify = λ t s.
      if same t (codes "good")
      then (s, ok (record { tenant = codes "acme" }))
      else (s, err no_documents);
  verify_api_key =
      λ tenant t s. if same t (codes "key_1.x") then (s, ok tt) else (s, err no_documents);
}

abbrev echo : Text → Handler (Unit {0}) Text
echo tenant s = (s, done 200 tenant)

abbrev request : String → String → Request
request tenant auth = record { tenant_header = codes tenant; authorization = codes auth }

runs :
    (auth_middleware verifiers echo (request " acme " "bEARER key_1.x") tt
      ≡ (tt, done 200 (codes "acme")))
    × (auth_middleware verifiers echo (request "acme" "Bearer good") tt
        ≡ (tt, done 200 (codes "acme")))
    × (auth_middleware verifiers echo (request "bcme" "Bearer good") tt
        ≡ (tt, failed 403 "tenant mismatch"))
    × (auth_middleware verifiers echo (request "acme" "Bear good") tt
        ≡ (tt, failed 401 "missing authorization"))
unfolding code
runs = (refl, refl, refl, refl)

auth_middleware-Outcome_example :
    Outcome verifiers echo
      (request "acme" "Bearer good")
      tt
      (auth_middleware verifiers echo (request "acme" "Bearer good") tt)
auth_middleware-Outcome_example =
    auth_middleware-Outcome verifiers echo (request "acme" "Bearer good") tt

abbrev key : ApiKey
key = record {
  id = codes "1";
  tenant_id = codes "acme";
  key_id = codes "key_1";
  key_hash = hex_encode (toy_digest.sum256 (codes "key_1.s"));
  label = [];
  revoked_at = none;
  created_at = noon;
  updated_at = noon;
}

abbrev no_tokens : Text → Action (List ApiKey) Claims
no_tokens t s = (s, err no_documents)

abbrev echo_tenant : Text → Handler (List ApiKey) Text
echo_tenant tenant s = (s, done 200 tenant)

auth_middleware-Accepted_example : Accepted (key ∷ []) (codes "Acme") (codes "key_1.s")
unfolding code
auth_middleware-Accepted_example =
    auth_middleware-Accepted memory memory-IsMongo no_tokens echo_tenant
      (request "Acme" "Bearer key_1.s") (key ∷ []) (key ∷ []) 200 (codes "Acme") (codes "key_1.s")
      refl refl refl
