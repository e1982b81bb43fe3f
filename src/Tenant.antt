-- ===== src/Tenant.antt =====
-- internal/store/tenant.go: tenants, and the API keys that are issued for them. `time.Now()`, the new
-- object ids and the random bytes are arguments. The model of the slugs, and of the TUI's `slugify`
-- (cmd/tui/tenants.go), is Tenant/Slug.antt; the proofs are in the other modules below.
pub mod Slug
pub mod Keys
mod Tests
use kd_server.Common.{
  ℕ, Bool, true, false, not, ◌&&◌, ◌||◌, Option, none, some, List, [], ◌∷◌, ◌++◌, Result, ok, err,
  Error, message, about, wrap, duplicate_key, is_no_documents, if◌then◌else◌, ltb, ◌==◌, String,
}
use kd_server.Text.{
  text_leb, Text, codes, same, is_empty, trim_space, Casing, to_upper, has_prefix, cut,
}
use kd_server.Text.Encode.{hex_encode, hex_decode, base64_encode}
use kd_server.Time.{Time}
use kd_server.Mongo.{Action, Collection, ◌>>=◌, ◌>>◌, pure, raise, require, reading, writing}
use Slug.{normalize_slug}

-- `primitive.ObjectID`, by its hexadecimal form (`Hex()`).
abbrev pub ObjectId : Type 0
ObjectId = Text

pub record Tenant : Type 0 where
  pub id : ObjectId
  pub slug : Text
  pub name : Text
  pub created_at : Time
  pub updated_at : Time

pub record ApiKey : Type 0 where
  pub id : ObjectId
  pub tenant_id : Text
  pub key_id : Text
  pub key_hash : Text
  pub label : Text
  pub revoked_at : Option Time
  pub created_at : Time
  pub updated_at : Time

pub record CreateTenantInput : Type 0 where
  pub slug : Text
  pub name : Text

pub record IssuedApiKey : Type 0 where
  pub tenant : Tenant
  pub key_id : Text
  pub secret : Text
  pub label : Text
  pub issued_at : Time

-- `sha256.Sum256` of the bytes of a text.
pub record Digest : Type 0 where
  pub sum256 : Text → List ℕ

abbrev pub not_configured : Error
not_configured = message "store: mongo not configured"

abbrev pub invalid_key : Error
invalid_key = message "store: invalid API key"

abbrev pub is_none {ℓ} : {A : Type ℓ} → Option A → Bool
is_none none = true
is_none (some _) = false

-- `generateSecret`, from what `rand.Read` filled the buffer with.
unfoldable pub generate_secret : Result (List ℕ) → Result Text
generate_secret (ok buf) = ok (base64_encode buf)
generate_secret (err e) = err e

-- The error of `InsertOne` in `CreateTenant`.
insert_error : Text → Error → Error
insert_error slug duplicate_key = about "store: tenant slug already exists" slug
insert_error slug e = wrap "store: create tenant" e

-- The error of a query that looks for one tenant.
missing_tenant : String → Text → Error → Error
missing_tenant otherwise slug e =
    if is_no_documents e then about "store: tenant not found" slug else wrap otherwise e

module _ {T : Type 0} (tenants : Collection T Tenant) where
  -- The cursor's reads are part of `find`.
  unfoldable pub list_tenants : Action T (List Tenant)
  list_tenants = do
    require tenants.configured not_configured
    reading (wrap "store: list tenants") (
        tenants.find (record {
          matches = λ t. true;
          precedes = λ s t. text_leb s.slug t.slug;
          skip = 0;
          limit = 0;
        }))

  module _ ⦃u : Casing⦄ where
    unfoldable pub create_tenant : CreateTenantInput → (now : Time) → ObjectId → Action T Tenant
    unfolding insert_error
    create_tenant input now id = do
      require tenants.configured not_configured
      let slug = normalize_slug input.slug
      require (not (is_empty slug))
          (message "store: tenant slug is required and must be lowercase alphanumeric or hyphen")
      let trimmed = trim_space input.name
      let tenant : Tenant = record {
        id = id;
        slug = slug;
        name = if is_empty trimmed then to_upper slug else trimmed;
        created_at = now;
        updated_at = now;
      }
      writing (insert_error slug) (tenants.insert_one tenant)
      pure tenant

    unfoldable pub update_tenant_name : Text → Text → (now : Time) → Action T Tenant
    unfolding missing_tenant
    update_tenant_name tenant_slug name now = do
      require tenants.configured not_configured
      let slug = normalize_slug tenant_slug
      let trimmed = trim_space name
      require (not (is_empty slug || is_empty trimmed))
          (message "store: tenant slug and name are required")
      writing (missing_tenant "store: update tenant" slug) (
          tenants.find_one_and_update (λ t. same t.slug slug)
            (λ t. record t { name = trimmed; updated_at = now }))

-- The collections that keys are issued from: tenants and keys.
pub record Store (T K : Type 0) : Type 0 where
  pub tenants : T
  pub keys : K

abbrev pub on_tenants : {T K A : Type 0} → Action T A → Action (Store T K) A
on_tenants m s = let (t, r) = m s.tenants in (record s { tenants = t }, r)

abbrev pub on_keys : {T K A : Type 0} → Action K A → Action (Store T K) A
on_keys m s = let (k, r) = m s.keys in (record s { keys = k }, r)
