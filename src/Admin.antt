-- ===== src/Admin.antt =====
-- internal/services/admin.go: the administration of tenants and keys, over the interface `AdminStore`.
pub mod Registry
pub mod Refines
mod Tests
use kd_server.Common.{
  ℕ, zero, suc, ◌+◌, ◌-◌, ◌*◌, ◌/◌, ◌%◌, ◌^◌, ◌≤◌, ◌<◌, String, ◌≡◌, refl, sym, ap, ◌∙◌, ◌≢◌, ◌↔◌,
  ◌⊎◌, inl, inr, Bool, true, false, not, ◌&&◌, ◌||◌, Option, none, some, List, [], ◌∷◌, ◌++◌, map,
  Memᴰ, arith, ltb, leb, ◌==◌, ==_iff, within, if◌then◌else◌, Bool-cases, Option-cases,
  Result-cases, length, take, drop, any, all, keep, length-append, All, All-append, All-map,
  All-mem, Result, ok, err, Error, message, about, wrap, fault, no_documents, duplicate_key,
  is_no_documents,
}
use kd_server.Text.{
  Text, codes, same, is_empty, is_blank, is_space, trim_space, Casing, to_lower, to_upper,
  has_prefix, trim_prefix, cut, same_iff, same_refl,
}
use kd_server.Mongo.{
  Action, after, ◌>>=◌, ◌>>◌, pure, raise, require, on_error, reading, writing, Query, page,
  Collection,
}
use kd_server.Mongo.Laws.{
  IsMongo, Updated, missed, hit, Unique, Unique-eq, after-eq-ok, require-eq-ok, on_error-eq-ok,
  IsOrder,
}
use kd_server.Text.Encode.{
  IsByte, hex_encode, hex_decode, hex_decode-encode, base64_encode, IsTokenChar,
  base64_encode-IsTokenChar,
}
use kd_server.Text.Parts.{has_prefix-append, cut-append}
use kd_server.Text.Trim.{IsSolid, trim_space-IsSolid}
use kd_server.Time.{Time}
use kd_server.Tenant.{
  Tenant, ApiKey, IssuedApiKey, Digest, ObjectId, Store, on_tenants, on_keys, not_configured,
  invalid_key, is_none, CreateTenantInput, list_tenants, create_tenant, update_tenant_name,
}
use kd_server.Tenant.Slug.{normalize_slug, normalize_slug_idem, normalize_slug-cases, IsSlug}
use kd_server.Tenant.Keys.{
  no_key, key_of, full_secret, has_key, parts, expected_hash, check_record, verify_api_key,
  revoke_api_key, issue_api_key,
}

pub record AdminStore (S : Type 0) : Type 0 where
  pub list_tenants : Action S (List Tenant)
  pub create_tenant : CreateTenantInput → Action S Tenant
  pub update_tenant_name : Text → Text → Action S Tenant
  pub issue_api_key : Text → Text → Action S IssuedApiKey
  pub revoke_api_key : Text → Text → Action S (Unit {0})

pub record TenantSummary : Type 0 where
  pub slug : Text
  pub name : Text
  pub created_at : Time

pub record IssuedCredential : Type 0 where
  pub tenant : Text
  pub key_id : Text
  pub secret : Text
  pub label : Text

abbrev pub tenant_summary : Tenant → TenantSummary
tenant_summary t = record { slug = t.slug; name = t.name; created_at = t.created_at }

abbrev pub issued_credential : IssuedApiKey → IssuedCredential
issued_credential i = record {
  tenant = i.tenant.slug;
  key_id = i.key_id;
  secret = i.secret;
  label = i.label;
}

module _ {S : Type 0} (store : AdminStore S) where
  unfoldable pub admin_list_tenants : Action S (List TenantSummary)
  admin_list_tenants = do tenants ← store.list_tenants; pure (map tenant_summary tenants)

  unfoldable pub admin_create_tenant : Text → Text → Action S TenantSummary
  admin_create_tenant slug name = do
    tenant ← store.create_tenant (record { slug = slug; name = name })
    pure (tenant_summary tenant)

  unfoldable pub admin_update_tenant_name : Text → Text → Action S TenantSummary
  admin_update_tenant_name slug name = do
    tenant ← store.update_tenant_name slug name
    pure (tenant_summary tenant)

  unfoldable pub admin_issue_api_key : Text → Text → Action S IssuedCredential
  admin_issue_api_key tenant label = do
    issued ← store.issue_api_key tenant label
    pure (issued_credential issued)

  unfoldable pub admin_revoke_api_key : Text → Text → Action S (Unit {0})
  admin_revoke_api_key tenant key_id = store.revoke_api_key tenant key_id

-- The new ids and the random bytes of one request.
pub record Grants : Type 0 where
  pub now : Time
  pub tenant_object : ObjectId
  pub key : ObjectId
  pub key_object : ObjectId
  pub random : Result (List ℕ)

-- `MongoStore` as an `AdminStore`.
module _ ⦃u : Casing⦄ ⦃d : Digest⦄ {T K : Type 0} (tenants : Collection T Tenant)
    (keys : Collection K ApiKey) where
  unfoldable pub mongo_admin_store : Grants → AdminStore (Store T K)
  mongo_admin_store g = record {
    list_tenants = on_tenants (list_tenants tenants);
    create_tenant = λ input. on_tenants (create_tenant tenants input g.now g.tenant_object);
    update_tenant_name = λ slug name. on_tenants (update_tenant_name tenants slug name g.now);
    issue_api_key =
        λ slug label. issue_api_key tenants keys slug label g.now g.key g.key_object g.random;
    revoke_api_key = λ tenant key_id. on_keys (revoke_api_key keys tenant key_id g.now);
  }
