-- ===== src/Http/Routes/Tests.antt =====
-- `NewHandler` with all optional services, and with none of them.
use kd_server.Common.{String, ◌≡◌, refl, true, false, if◌then◌else◌, ok, err, no_documents}
use kd_server.Http.{Reply, failed, done}
use kd_server.Text.{Text, codes, same, is_space, trim_space, has_prefix, cut}
use kd_server.Http.Middleware.{Verifiers, bearer, auth_middleware}
use kd_server.Http.Routes.{
  Route, Features, patterns, fits, best, HttpRequest, AssetChange, asset_change_of, Handlers,
  new_handler, history, transfer, resolve, categories, category_types,
}
use kd_server.Http.Routes.Guarded.{Protected, new_handler-Protected}

code : Unit {0}
unfolding new_handler best patterns fits asset_change_of auth_middleware bearer trim_space is_space
    has_prefix cut
code = tt

abbrev verifiers : Verifiers (Unit {0})
verifiers = record {
  verify = λ t s. (s, err no_documents);
  verify_api_key =
      λ tenant t s. if same t (codes "key_1.x") then (s, ok tt) else (s, err no_documents);
}

-- What was called, with the tenant it was handed.
data Called : Type 0 where
  page : Called
  moved : Text → Called
  tenant_route : Route → Text → Called
  tenant_change : AssetChange → Text → Called

abbrev handlers : Handlers (Unit {0}) Called
handlers = record {
  redirect = λ path s. (s, done 301 (moved path));
  landing_page = λ s. (s, done 200 page);
  admin_html = λ s. (s, done 200 page);
  admin_handler = λ r s. (s, done 200 page);
  health = λ s. (s, done 200 page);
  of_route = λ route r tenant s. (s, done 200 (tenant_route route tenant));
  of_change = λ c r tenant s. (s, done 200 (tenant_change c tenant));
}

abbrev every : Features
every = record { admin = true; assets = true; classification = true }

abbrev bare : Features
bare = record { admin = false; assets = false; classification = false }

abbrev at : String → String → HttpRequest
at path method = record {
  path = codes path;
  method = codes method;
  credentials = record { tenant_header = codes "acme"; authorization = codes "Bearer key_1.x" };
}

abbrev reply : Features → String → String → Reply Called
reply f path method = (new_handler verifiers handlers f (at path method) tt).1

runs :
    (reply every "/v1/resolve" "POST" ≡ done 200 (tenant_route resolve (codes "acme")))
    × (reply every "/v1/assets/7/transfer" "POST"
        ≡ done 200 (tenant_change transfer (codes "acme")))
    × (reply every "/v1/assets/7/transfer" "GET" ≡ failed 404 "not found")
    × (reply every "/v1/assets/7/history" "PUT" ≡ done 200 (tenant_change history (codes "acme")))
    × (reply every "/v1/assets/categories/7" "GET"
        ≡ done 200 (tenant_route category_types (codes "acme")))
    × (reply every "/v1/assets/categories" "GET"
        ≡ done 200 (tenant_route categories (codes "acme")))
    × (reply bare "/v1/assets/categories" "GET" ≡ failed 404 "404 page not found")
    × (reply bare "/v1/lookup/phone" "GET" ≡ done 301 (moved (codes "/v1/lookup/phone/")))
    × (reply bare "/admin" "GET" ≡ done 200 page)
    × (reply bare "/admin/api/login" "POST" ≡ failed 404 "404 page not found")
unfolding code
runs = (refl, refl, refl, refl, refl, refl, refl, refl, refl, refl)

new_handler-Protected_example :
    Protected verifiers handlers every
      (at "/v1/assets/7/dispose" "POST")
      tt
      (new_handler verifiers handlers every (at "/v1/assets/7/dispose" "POST") tt)
unfolding code
new_handler-Protected_example =
    new_handler-Protected verifiers handlers every (at "/v1/assets/7/dispose" "POST") tt refl refl
