-- ===== src/Tenant/Keys.antt =====
-- internal/store/tenant.go: `IssueAPIKey`, `VerifyAPIKey` and `RevokeAPIKey`. The key's record holds
-- the SHA-256 of the whole secret, `key_<id>.<random>`, in hexadecimal.
pub mod Issue
pub mod Revoke
use kd_server.Common.{
  Bool, not, ◌&&◌, ◌||◌, Option, none, some, List, ℕ, ◌∷◌, ◌++◌, Result, Error, message, wrap,
  is_no_documents, if◌then◌else◌, ◌==◌, length,
}
use kd_server.Text.{Text, codes, same, is_empty, trim_space, Casing, has_prefix, cut}
use kd_server.Text.Encode.{hex_encode, hex_decode}
use kd_server.Time.{Time}
use kd_server.Mongo.{Action, Collection, ◌>>=◌, ◌>>◌, pure, raise, require, reading, writing}
use kd_server.Tenant.{
  Tenant, ApiKey, IssuedApiKey, Digest, ObjectId, Store, on_tenants, on_keys, not_configured,
  invalid_key, is_none, generate_secret, missing_tenant,
}
use kd_server.Tenant.Slug.{normalize_slug}

-- `fmt.Sprintf("key_%s", id.Hex())`
abbrev pub key_of : ObjectId → Text
key_of object = codes "key_" ++ object

-- `fmt.Sprintf("%s.%s", keyID, secret)`
abbrev pub full_secret : Text → Text → Text
full_secret key_id secret = key_id ++ b'.' ∷ secret

abbrev pub has_key : Text → Text → ApiKey → Bool
has_key tenant key_id r = same r.tenant_id tenant && same r.key_id key_id

abbrev pub no_key : Error → Error
no_key e = if is_no_documents e then invalid_key else wrap "store: find API key" e

-- What `strings.Cut` returned: the key's id and the secret, or `!ok`.
abbrev pub parts : {S : Type 0} → Option (Text × Text) → Action S (Text × Text)
parts none = raise invalid_key
parts (some p) = pure p

-- `hex.DecodeString(record.KeyHash)`, of the size of a SHA-256.
abbrev pub expected_hash : {S : Type 0} → Option (List ℕ) → Action S (List ℕ)
expected_hash none = raise invalid_key
expected_hash (some hash) = if length hash == 32 then pure hash else raise invalid_key

module _ ⦃u : Casing⦄ ⦃d : Digest⦄ where
  module _ {K : Type 0} (keys : Collection K ApiKey) where
    -- The checks behind the query: not revoked, a readable hash, and the same hash.
    unfoldable pub check_record : Text → ApiKey → Action K (Unit {0})
    check_record api_key r = do
      require (is_none r.revoked_at) invalid_key
      hash ← expected_hash (hex_decode r.key_hash)
      require (same (d.sum256 api_key) hash) invalid_key

    unfoldable pub verify_api_key : Text → Text → Action K (Unit {0})
    verify_api_key tenant_id api_key = do
      require keys.configured not_configured
      let tenant = normalize_slug tenant_id
      (key_id, secret) ← parts (cut b'.' (trim_space api_key))
      require (not (is_empty tenant) && has_prefix (codes "key_") key_id && not (is_empty secret))
          invalid_key
      r ← reading no_key (keys.find_one (has_key tenant key_id))
      check_record api_key r

    unfoldable pub revoke_api_key : Text → Text → (now : Time) → Action K (Unit {0})
    revoke_api_key tenant_id key_id now = do
      require keys.configured not_configured
      let tenant = normalize_slug tenant_id
      let key = trim_space key_id
      require (not (is_empty tenant) && has_prefix (codes "key_") key)
          (message "store: tenant and key ID are required")
      matched ← writing (wrap "store: revoke API key") (
          keys.update_one (λ r. has_key tenant key r && is_none r.revoked_at)
            (λ r. record r { revoked_at = some now; updated_at = now }))
      require (not (matched == 0)) (message "store: active API key not found")

  module _ {T K : Type 0} (tenants : Collection T Tenant) (keys : Collection K ApiKey) where
    unfoldable pub issue_api_key :
        Text
        → Text
        → (now : Time) → (key id : ObjectId) → (random : Result (List ℕ))
        → Action (Store T K) IssuedApiKey
    unfolding missing_tenant generate_secret
    issue_api_key tenant_slug label now key id random = do
      require tenants.configured not_configured
      let slug = normalize_slug tenant_slug
      require (not (is_empty slug)) (message "store: tenant slug required")
      tenant ← on_tenants (
          reading (missing_tenant "store: find tenant" slug)
            (tenants.find_one (λ t. same t.slug slug)))
      secret ← reading (wrap "store: generate secret") (λ _. generate_secret random)
      let full = full_secret (key_of key) secret
      let entry : ApiKey = record {
        id = id;
        tenant_id = tenant.slug;
        key_id = key_of key;
        key_hash = hex_encode (d.sum256 full);
        label = trim_space label;
        revoked_at = none;
        created_at = now;
        updated_at = now;
      }
      on_keys (writing (wrap "store: insert key") (keys.insert_one entry))
      pure (record {
        tenant = tenant;
        key_id = key_of key;
        secret = full;
        label = entry.label;
        issued_at = now;
      })
