-- ===== src/Http/Admin/Tests.antt =====
-- Requests to the admin handler, with and without a session.
use kd_server.Common.{ℕ, suc, ◌≡◌, refl, ◌⊎◌, true, false, none, some, [], ◌∷◌, ok, err, message}
use kd_server.Text.{Text, codes, lower_rune}
use kd_server.Admin.{AdminStore, admin_revoke_api_key}
use kd_server.Http.Sessions.{
  AdminAuthenticator, valid_session, admin_middleware, session, remove_expired,
}
use kd_server.Http.Admin.{
  AdminRequest, Services, extension, base, allowed_document_upload, is_route, protected,
  admin_api_handler, no_form,
}
use kd_server.Http.{failed}
use kd_server.Samples.{plain_casing}
use kd_server.Http.Admin.Laws.{Admitted, admin_api_handler-Admitted}

code : Unit {0}
unfolding allowed_document_upload extension base lower_rune admin_api_handler admin_middleware
    protected
code = tt

upload_tests :
    (allowed_document_upload (codes "scan.v2.PDF") (codes "application/pdf") ≡ true)
    × (allowed_document_upload (codes "scan.pdf/x") (codes "application/pdf") ≡ false)
    × (base (codes "/tmp/id.png/") ≡ codes "id.png")
unfolding code
upload_tests = (refl, refl, refl)

-- A store that counts its calls.
abbrev counting : AdminStore ℕ
counting = record {
  list_tenants = λ n. (suc n, ok []);
  create_tenant = λ input n. (suc n, err (message "full"));
  update_tenant_name = λ slug name n. (suc n, err (message "full"));
  issue_api_key = λ slug label n. (suc n, err (message "full"));
  revoke_api_key = λ slug key n. (suc n, ok tt);
}

abbrev services : Services ℕ Text
services = record {
  admin = counting;
  admin_username = codes "root";
  documents = none;
  extract = none;
}

abbrev request : AdminRequest
request = record {
  path = codes "/admin/api/keys/revoke";
  method = codes "POST";
  cookie = some (codes "t");
  tenant_body = none;
  key_body = none;
  revoke_body = some (record { tenant = codes "acme"; key_id = codes "key_1" });
  login_body = none;
  document_body = none;
  query_tenant = [];
  query_person = [];
  query_limit = [];
  upload = no_form;
}

abbrev auth : AdminAuthenticator
auth = record { username = codes "root"; password = codes "pw"; sessions = (codes "t", 9) ∷ [] }

revoke_tests :
    ((admin_api_handler services 5 6 (ok []) request (auth, 0)).0.1 ≡ 1)
    × ((admin_api_handler services 10 11 (ok []) request (auth, 0)).0.1 ≡ 0)
unfolding code valid_session session remove_expired admin_revoke_api_key
revoke_tests = (refl, refl)

admin_api_handler-Admitted_example :
    Admitted services 10 request auth 0 (admin_api_handler services 10 11 (ok []) request (auth, 0))
    ⊎ (((admin_api_handler services 10 11 (ok []) request (auth, 0)).0.1 ≡ 0)
        × ((is_route request (codes "/admin/api/login") (codes "POST") ≡ true)
            ⊎ (is_route request (codes "/admin/api/logout") (codes "POST") ≡ true)
            ⊎ ((admin_api_handler services 10 11 (ok []) request (auth, 0)).1
                ≡ failed 401 "admin login required")))
admin_api_handler-Admitted_example =
    admin_api_handler-Admitted services 10 11 (ok []) request auth 0
