-- ===== src/Http/Admin.antt =====
-- `adminAPIHandler` of internal/http/admin.go: the dispatch on path and method, behind the session check
-- but for login and logout. A body is what each case decodes it to, `none` where it does not; the form of
-- an upload is read by the library. The pages of the file are constants.
pub mod Laws
mod Tests
use kd_server.Common.{
  ℕ, zero, suc, ◌+◌, ◌-◌, ◌*◌, ◌/◌, ◌%◌, ◌^◌, ◌≤◌, ◌<◌, String, ◌≡◌, refl, sym, ap, ◌∙◌, ◌≢◌, ◌↔◌,
  ◌⊎◌, inl, inr, Bool, true, false, not, ◌&&◌, ◌||◌, Option, none, some, List, [], ◌∷◌, ◌++◌, map,
  Memᴰ, arith, ltb, leb, ◌==◌, ==_iff, within, if◌then◌else◌, Bool-cases, Option-cases,
  Result-cases, length, take, drop, any, all, keep, length-append, All, All-append, All-map,
  All-mem, Result, ok, err, Error, message, about, wrap, fault, no_documents, duplicate_key,
  is_no_documents,
}
use kd_server.Text.{
  Text, codes, same, is_empty, is_blank, is_space, trim_space, Casing, to_lower, to_upper,
  has_prefix, trim_prefix, cut, same_iff, same_refl,
}
use kd_server.Mongo.{
  Action, after, ◌>>=◌, ◌>>◌, pure, raise, require, on_error, reading, writing, Query, page,
  Collection,
}
use kd_server.Mongo.Laws.{
  IsMongo, Updated, missed, hit, Unique, Unique-eq, after-eq-ok, require-eq-ok, on_error-eq-ok,
  IsOrder,
}
use kd_server.Admin.{
  AdminStore, TenantSummary, IssuedCredential, tenant_summary, issued_credential,
  admin_list_tenants, admin_create_tenant, admin_update_tenant_name, admin_issue_api_key,
  admin_revoke_api_key, Grants, mongo_admin_store,
}
use kd_server.Http.Sessions.{
  AdminAuthenticator, Cookie, login, logout, valid_session, after_check, admin_middleware,
  new_admin_authenticator, Sessions,
}
use kd_server.Http.{Reply, failed, failed_with, done, Handler}
use kd_server.Document.{IdentityDocument}
use kd_server.Format.{ℤ, pos, atoi}

pub record TenantRequest : Type 0 where
  pub slug : Text
  pub name : Text

pub record KeyRequest : Type 0 where
  pub tenant : Text
  pub label : Text

pub record RevokeRequest : Type 0 where
  pub tenant : Text
  pub key_id : Text

pub record LoginRequest : Type 0 where
  pub username : Text
  pub password : Text

-- What the library finds in the form of an upload: a name and a detected content type, where it has a
-- readable file.
pub data Upload : Type 0 where
  no_form no_file unreadable : Upload
  uploaded : (filename content_type : Text) → Upload

pub record AdminRequest : Type 0 where
  pub path : Text
  pub method : Text
  pub cookie : Option Text
  pub tenant_body : Option TenantRequest
  pub key_body : Option KeyRequest
  pub revoke_body : Option RevokeRequest
  pub login_body : Option LoginRequest
  pub document_body : Option IdentityDocument
  pub query_tenant : Text
  pub query_person : Text
  pub query_limit : Text
  pub upload : Upload

-- What the handler writes; `X` is the extraction of a document.
pub data AdminPage (X : Type 0) : Type 0 where
  tenant_list : List TenantSummary → AdminPage X
  tenant_page : TenantSummary → AdminPage X
  credential : IssuedCredential → AdminPage X
  status_page : Text → AdminPage X
  document_list : List IdentityDocument → AdminPage X
  document_page : IdentityDocument → AdminPage X
  extraction : X → AdminPage X

-- The interface `IdentityDocuments` of internal/services/identity_document.go.
pub record DocumentService (S : Type 0) : Type 0 where
  pub list : Text → Text → ℤ → Action S (List IdentityDocument)
  pub save : IdentityDocument → Text → Action S IdentityDocument

abbrev pub limit_or_zero : Option ℤ → ℤ
limit_or_zero none = pos 0
limit_or_zero (some n) = n

-- The services of the configuration; `none` is a nil service.
pub record Services (S X : Type 0) : Type 0 where
  pub admin : AdminStore S
  pub admin_username : Text
  pub documents : Option (DocumentService S)
  pub extract : Option (Text → Text → Action S X)

abbrev has_slash : Text → Bool
has_slash = any (λ c. c == b'/')

-- `filepath.Ext`: from the last dot behind the last slash.
unfoldable pub extension : Text → Text
extension [] = []
extension (c ∷ s) =
    let rest = extension s in
    if not (is_empty rest) then rest else if c == b'.' && not (has_slash s) then c ∷ s else []

abbrev behind_slash : Text → Text
behind_slash [] = []
behind_slash (c ∷ s) =
    let rest = behind_slash s in if has_slash s then rest else if c == b'/' then s else c ∷ s

abbrev without_slashes : Text → Text
without_slashes [] = []
without_slashes (c ∷ s) =
    let rest = without_slashes s in if c == b'/' && is_empty rest then [] else c ∷ rest

-- `filepath.Base`
unfoldable pub base : Text → Text
base s =
    let name = behind_slash (without_slashes s) in
    if is_empty s then b'.' ∷ [] else if is_empty name then b'/' ∷ [] else name

module _ ⦃u : Casing⦄ where
  unfoldable pub allowed_document_upload : Text → Text → Bool
  unfolding extension
  allowed_document_upload filename content_type =
      let ending = to_lower (extension filename) in
      if same content_type (codes "application/pdf")
      then same ending (codes ".pdf")
      else if same content_type (codes "image/jpeg")
      then same ending (codes ".jpg") || same ending (codes ".jpeg")
      else if same content_type (codes "image/png")
      then same ending (codes ".png")
      else false

abbrev pub is_route : AdminRequest → Text → Text → Bool
is_route r path method = same r.path path && same r.method method

module _ {S X : Type 0} where
  -- The answer to an error of a service, or to its value.
  abbrev pub answer_with :
      {A : Type 0} → (bad good : ℕ) → (A → AdminPage X) → S × Result A → S × Reply (AdminPage X)
  answer_with bad good page (s, ok a) = (s, done good (page a))
  answer_with bad good page (s, err e) = (s, failed_with bad e)

  abbrev pub list_answer : S × Result (List TenantSummary) → S × Reply (AdminPage X)
  list_answer (s, ok ts) = (s, done 200 (tenant_list ts))
  list_answer (s, err e) = (s, failed 500 "list tenants failed")

  abbrev pub decoded :
      {A : Type 0} → Option A → (A → Handler S (AdminPage X)) → Handler S (AdminPage X)
  decoded none h s = (s, failed 400 "invalid payload")
  decoded (some a) h s = h a s

  abbrev pub not_found : Handler S (AdminPage X)
  not_found s = (s, failed 404 "not found")

module _ ⦃u : Casing⦄ {S X : Type 0} (services : Services S X) where
  -- The value of a limit that is no `int` is 0 or the greatest or least `int`, each of them read as 50.
  abbrev pub list_documents_case :
      AdminRequest → Option (DocumentService S) → Handler S (AdminPage X)
  list_documents_case r none s = not_found s
  list_documents_case r (some d) s =
      answer_with 400 200 document_list
        (d.list r.query_tenant r.query_person (limit_or_zero (atoi r.query_limit)) s)

  abbrev pub save_document_case :
      AdminRequest → Option (DocumentService S) → Handler S (AdminPage X)
  save_document_case r none s = not_found s
  save_document_case r (some d) s =
      decoded r.document_body
        (λ document t.
          answer_with 400 200 document_page (d.save document services.admin_username t))
        s

  abbrev pub extract_case : Upload → Option (Text → Text → Action S X) → Handler S (AdminPage X)
  extract_case upload none s = not_found s
  extract_case no_form (some f) s =
      (s, failed 400 "document must be a PDF, JPEG, or PNG no larger than 10 MB")
  extract_case no_file (some f) s = (s, failed 400 "document file is required")
  extract_case unreadable (some f) s = (s, failed 400 "read document failed")
  extract_case (uploaded filename content_type) (some f) s =
      if allowed_document_upload filename content_type
      then answer_with 422 200 extraction (f (base filename) content_type s)
      else (s, failed 400 "only PDF, JPEG, and PNG documents are supported")

  -- The cases behind the session check.
  unfoldable pub protected : AdminRequest → Handler S (AdminPage X)
  unfolding allowed_document_upload base
  protected r s =
      if is_route r (codes "/admin/api/tenants") (codes "GET")
      then list_answer (admin_list_tenants services.admin s)
      else if is_route r (codes "/admin/api/tenants") (codes "POST")
      then decoded r.tenant_body
          (λ q t.
            answer_with 400 201 tenant_page (admin_create_tenant services.admin q.slug q.name t))
          s
      else if is_route r (codes "/admin/api/tenants/update") (codes "POST")
      then decoded r.tenant_body
          (λ q t.
            answer_with 400 200 tenant_page
              (admin_update_tenant_name services.admin q.slug q.name t))
          s
      else if is_route r (codes "/admin/api/keys") (codes "POST")
      then decoded r.key_body
          (λ q t.
            answer_with 400 201 credential (admin_issue_api_key services.admin q.tenant q.label t))
          s
      else if is_route r (codes "/admin/api/keys/revoke") (codes "POST")
      then decoded r.revoke_body
          (λ q t.
            answer_with 400 200 (λ _. status_page (codes "revoked"))
              (admin_revoke_api_key services.admin q.tenant q.key_id t))
          s
      else if is_route r (codes "/admin/api/identity-documents") (codes "GET")
      then list_documents_case r services.documents s
      else if is_route r (codes "/admin/api/identity-documents") (codes "POST")
      then save_document_case r services.documents s
      else if is_route r (codes "/admin/api/identity-documents/extract") (codes "POST")
      then extract_case r.upload services.extract s
      else not_found s

  -- The two moments and the random bytes that a login reads.
  abbrev pub after_login :
      S → AdminAuthenticator × Result Cookie → (AdminAuthenticator × S) × Reply (AdminPage X)
  after_login s (a, ok cookie) = ((a, s), done 200 (status_page (codes "authenticated")))
  after_login s (a, err e) = ((a, s), failed_with 401 e)

  abbrev pub login_case :
      ℕ → ℕ → Result (List ℕ) → Option LoginRequest → Handler (AdminAuthenticator × S) (AdminPage X)
  login_case now later random none (a, s) = ((a, s), failed 400 "invalid payload")
  login_case now later random (some q) (a, s) =
      after_login s (login q.username q.password now later random a)

  unfoldable pub admin_api_handler :
      (now later : ℕ)
      → (random : Result (List ℕ)) → AdminRequest
      → Handler (AdminAuthenticator × S) (AdminPage X)
  unfolding protected
  admin_api_handler now later random r (a, s) =
      if is_route r (codes "/admin/api/login") (codes "POST")
      then login_case now later random r.login_body (a, s)
      else if is_route r (codes "/admin/api/logout") (codes "POST")
      then ((logout r.cookie a, s), done 200 (status_page (codes "logged_out")))
      else admin_middleware (protected r) r.cookie now (a, s)
