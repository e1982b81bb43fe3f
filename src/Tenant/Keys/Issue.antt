-- ===== src/Tenant/Keys/Issue.antt =====
-- A key that was issued is accepted.
use mathlib.Core.List.Memᴰ
use kd_server.Common.{
  ℕ, ◌≡◌, refl, sym, ◌∙◌, ◌⊎◌, inl, inr, true, false, none, some, List, [], ◌∷◌, Memᴰ, arith,
  Bool-cases, Result-cases, length, All, All-append, All-map, All-mem, Result, ok, err, Error, wrap,
  is_no_documents,
}
use kd_server.Text.{
  Text, codes, same, is_empty, is_space, trim_space, Casing, has_prefix, cut, same_iff, same_refl,
}
use kd_server.Mongo.{after, reading, Collection}
use kd_server.Mongo.Laws.{IsMongo, Unique, Unique-eq}
use kd_server.Tenant.Keys.Revoke.{same_key, same_key_comm}
use kd_server.Text.Encode.{
  IsByte, hex_encode, hex_decode-encode, base64_encode, IsTokenChar, base64_encode-IsTokenChar,
}
use kd_server.Text.Parts.{has_prefix-append, cut-append}
use kd_server.Text.Trim.{IsSolid, trim_space-IsSolid}
use kd_server.Time.{Time}
use kd_server.Tenant.{Tenant, ApiKey, IssuedApiKey, Digest, ObjectId, Store}
use kd_server.Tenant.Slug.{normalize_slug}
use kd_server.Tenant.Keys.{
  no_key, key_of, full_secret, has_key, check_record, verify_api_key, issue_api_key,
}

-- What the program relies on of SHA-256: 32 bytes.
pub record IsSha256 (d : Digest) : Type 0 where
  pub size : (t : Text) → length (d.sum256 t) ≡ 32
  pub bytes : (t : Text) → All IsByte (d.sum256 t)

-- A key was accepted, or the driver failed and `VerifyAPIKey` passed that on.
abbrev pub VerifyOutcome : {K : Type 0} → K × Result (Unit {0}) → Type 0
VerifyOutcome r = (r.1 ≡ ok tt) ⊎ ((e : Error) × (r.1 ≡ err (wrap "store: find API key" e)))

module _ ⦃u : Casing⦄ ⦃d : Digest⦄ (sha : IsSha256 d) where
  -- The record that `IssueAPIKey` inserts.
  abbrev issued_entry : Tenant → Text → Time → ObjectId → ObjectId → Text → ApiKey
  issued_entry tenant label now key id secret = record {
    id = id;
    tenant_id = tenant.slug;
    key_id = key_of key;
    key_hash = hex_encode (d.sum256 (full_secret (key_of key) secret));
    label = trim_space label;
    revoked_at = none;
    created_at = now;
    updated_at = now;
  }

  check_record-issued :
      {K : Type 0} (keys : Collection K ApiKey) (tenant : Tenant) (label : Text) (now : Time)
      (key id : ObjectId) (secret : Text) (s : K)
      → check_record keys
          (full_secret (key_of key) secret)
          (issued_entry tenant label now key id secret)
          s
        ≡ (s, ok tt)
  unfolding check_record
  check_record-issued keys tenant label now key id secret s =
      let hash = d.sum256 (full_secret (key_of key) secret) in
      rw (
        hex_decode-encode hash (sha.bytes _),
        sha.size (full_secret (key_of key) secret),
        same_refl hash,
      )

  prefix-IsSolid : IsSolid (codes "key_.")
  unfolding is_space
  prefix-IsSolid = (refl, (refl, (refl, (refl, (refl, tt)))))

  -- Trimming and cutting the secret gives the parts that it was made of.
  cut-full_secret :
      (key : ObjectId) (secret : Text)
      → All IsTokenChar key
      → All IsTokenChar secret
      → cut b'.' (trim_space (full_secret (key_of key) secret)) ≡ some (key_of key, secret)
  cut-full_secret key secret h k =
      let (k_solid, (e_solid, (y_solid, (bar_solid, (dot_solid, _))))) = prefix-IsSolid in
      let no_dots = All-map (λ c (t : IsTokenChar c). t.1) key h in
      let solid_key = All-map (λ c (t : IsTokenChar c). t.0) key h in
      let solid_secret = All-map (λ c (t : IsTokenChar c). t.0) secret k in
      let solid_rest = All-append _ key (b'.' ∷ secret) solid_key (dot_solid, solid_secret) in
      rw
        (trim_space-IsSolid (full_secret (key_of key) secret)
          (k_solid, (e_solid, (y_solid, (bar_solid, solid_rest)))))
        (cut-append b'.' (key_of key) secret (refl, (refl, (refl, (refl, no_dots)))))

  module _ {T K : Type 0} (tenants : Collection T Tenant) (keys : Collection K ApiKey)
      (tenants_law : IsMongo tenants) (keys_law : IsMongo keys) where
    issue_api_key_lem :
        (slug label : Text) (now : Time) (key id : ObjectId) (buf : List ℕ) (s : Store T K)
        (i : IssuedApiKey)
        → (issue_api_key tenants keys slug label now key id (ok buf) s).1 ≡ ok i
        → let entry = issued_entry i.tenant label now key id (base64_encode buf) in
          (is_empty (normalize_slug slug) ≡ false)
          × (tenants.find_one (λ t. same t.slug (normalize_slug slug)) s.tenants ≡ ok i.tenant)
          × (i.secret ≡ full_secret (key_of key) (base64_encode buf))
          × ((issue_api_key tenants keys slug label now key id (ok buf) s).0.keys
              ≡ (keys.insert_one entry s.keys).0)
          × ((keys.insert_one entry s.keys).1 ≡ ok tt)
    unfolding issue_api_key
    issue_api_key_lem slug label now key id buf s i h =
        elim (Result-cases (tenants.find_one (λ t. same t.slug (normalize_slug slug)) s.tenants)) [
          | inl (t, found) ↦
              let entry = issued_entry t label now key id (base64_encode buf) in
              elim (Result-cases (keys.insert_one entry s.keys).1) [
                | inl (u, inserted) ↦
                    (ground arith, ground arith, ground arith, ground arith, ground arith)
                | inr (e, failed) ↦ absurd (ground arith)
              ]
          | inr (e, failed) ↦ absurd (ground arith)
        ]

    -- What `VerifyAPIKey` does behind its checks of the text.
    verify_api_key_lem :
        (header api_key key_id secret : Text) (s : K)
        → keys.configured ≡ true
        → is_empty (normalize_slug header) ≡ false
        → cut b'.' (trim_space api_key) ≡ some (key_id, secret)
        → has_prefix (codes "key_") key_id ≡ true
        → is_empty secret ≡ false
        → verify_api_key keys header api_key s
          ≡ after
              (reading no_key (keys.find_one (has_key (normalize_slug header) key_id)) s)
              (check_record keys api_key)
    unfolding verify_api_key
    verify_api_key_lem header api_key key_id secret s c n p k m = simp (c, n, p, k, m)

    has_key_self : (r : ApiKey) → has_key r.tenant_id r.key_id r ≡ true
    has_key_self r = rw (same_refl r.tenant_id, same_refl r.key_id)

    -- The query finds the record, unless the driver fails.
    query-stored :
        (r : ApiKey) (api_key : Text) (k : K)
        → ((s : K) → check_record keys api_key r s ≡ (s, ok tt))
        → Memᴰ r (keys.docs k)
        → Unique same_key (keys.docs k)
        → VerifyOutcome (
            after
              (reading no_key (keys.find_one (has_key r.tenant_id r.key_id)) k)
              (check_record keys api_key))
    query-stored r api_key k accepts stored unique =
        elim (Result-cases (keys.find_one (has_key r.tenant_id r.key_id) k)) [
          | inl (x, found) ↦
              let (m, fits) = keys_law.find_one_found _ k x found in
              let one : r ≡ x =
                Unique-eq same_key same_key_comm (keys.docs k) r x unique stored m fits in
              inl (rw (found, ← one) (rw (accepts k)))
          | inr (e, failed) ↦ elim (Bool-cases (is_no_documents e)) [
            | inl gone ↦
                let none_fit = keys_law.find_one_missing _ k e failed gone in
                let misfit =
                  All-mem (λ x. has_key r.tenant_id r.key_id x ≡ false) (keys.docs k) none_fit
                    stored in
                absurd (ground (arith, has_key_self r))
            | inr other ↦ inr (e, rw failed (rw other))
          ]
        ]

    base64_encode-ne-nil : (buf : List ℕ) → length buf ≡ 24 → is_empty (base64_encode buf) ≡ false
    unfolding base64_encode
    base64_encode-ne-nil [] h = absurd (omega arith)
    base64_encode-ne-nil (a ∷ []) h = refl
    base64_encode-ne-nil (a ∷ b ∷ []) h = refl
    base64_encode-ne-nil (a ∷ b ∷ c ∷ bs) h = refl

    verify-stored :
        (t : Tenant) (label header : Text) (now : Time) (key id : ObjectId) (secret : Text) (k : K)
        → keys.configured ≡ true
        → normalize_slug header ≡ t.slug
        → is_empty t.slug ≡ false
        → All IsTokenChar key
        → All IsTokenChar secret
        → is_empty secret ≡ false
        → Memᴰ (issued_entry t label now key id secret) (keys.docs k)
        → Unique same_key (keys.docs k)
        → VerifyOutcome (verify_api_key keys header (full_secret (key_of key) secret) k)
    verify-stored t label header now key id secret k c spelled some_slug h token some_secret m
          unique =
        let entry = issued_entry t label now key id secret in
        let steps =
          verify_api_key_lem header (full_secret (key_of key) secret) (key_of key) secret k c
            (rw spelled some_slug) (cut-full_secret key secret h token)
            (has_prefix-append (codes "key_") key) some_secret in
        rw (steps, spelled)
          (query-stored entry (full_secret (key_of key) secret) k
            (check_record-issued keys t label now key id secret) m unique)

    -- A secret that `IssueAPIKey` returned (for a key object whose hexadecimal id has no dot and no
    -- white space, and 24 random bytes) is accepted by `VerifyAPIKey` behind it, under any spelling of
    -- the tenant that `normalizeSlug` maps to its slug, as long as the unique index on keys holds. The
    -- only other outcome is an error of the driver, passed on as "store: find API key".
    pub verify-issue :
        (slug label header : Text) (now : Time) (key id : ObjectId) (buf : List ℕ) (s : Store T K)
        (i : IssuedApiKey)
        → keys.configured ≡ true
        → (issue_api_key tenants keys slug label now key id (ok buf) s).1 ≡ ok i
        → All IsTokenChar key
        → length buf ≡ 24
        → Unique same_key
            (keys.docs (issue_api_key tenants keys slug label now key id (ok buf) s).0.keys)
        → normalize_slug header ≡ normalize_slug slug
        → VerifyOutcome (
            verify_api_key keys header i.secret
              (issue_api_key tenants keys slug label now key id (ok buf) s).0.keys)
    verify-issue slug label header now key id buf s i c h key_chars size unique spelled =
        let (some_slug, found, secret, state, inserted) =
          issue_api_key_lem slug label now key id buf s i h in
        let same_slug : i.tenant.slug ≡ normalize_slug slug =
          (same_iff _ _).0 (tenants_law.find_one_found _ _ _ found).1 in
        let entry = issued_entry i.tenant label now key id (base64_encode buf) in
        let stored = keys_law.insert_one_done entry s.keys inserted in
        rw (secret, state)
          (verify-stored i.tenant label header now key id (base64_encode buf) _ c
            (spelled ∙ sym same_slug) (rw same_slug some_slug) key_chars
            (base64_encode-IsTokenChar buf) (base64_encode-ne-nil buf size)
            (rw stored (Memᴰ.append_right (keys.docs s.keys) (Memᴰ.head refl)))
            (rw state at unique))
