-- ===== src/Tenant/Keys/Revoke.antt =====
-- A revoked key is refused; what is accepted is a record of the tenant that is not revoked.
use kd_server.Common.{
  ℕ, ◌≡◌, refl, sym, ap, ◌∙◌, ◌≢◌, inl, inr, Bool, true, ◌&&◌, none, some, List, [], ◌∷◌, Memᴰ,
  arith, Option-cases, Result-cases, ok,
}
use kd_server.Text.{Text, same, trim_space, Casing, cut, same_iff, same_refl}
use mathlib.Core.List.Memᴰ
use kd_server.Mongo.{Collection}
use kd_server.Mongo.Laws.{IsMongo, Updated, missed, hit, Unique, Unique-eq}
use kd_server.Text.Encode.{hex_decode}
use kd_server.Time.{Time}
use kd_server.Tenant.{ApiKey, Digest, is_none}
use kd_server.Tenant.Slug.{normalize_slug}
use kd_server.Tenant.Keys.{has_key, check_record, verify_api_key, revoke_api_key}

-- The unique index `keys_tenant_key`.
abbrev pub same_key : ApiKey → ApiKey → Bool
same_key a b = has_key a.tenant_id a.key_id b

same_comm : (s t : Text) → same s t ≡ same t s
same_comm [] [] = refl
same_comm [] (_ ∷ _) = refl
same_comm (_ ∷ _) [] = refl
same_comm (c ∷ s) (d ∷ t) = ground (arith, same_comm s t)

pub same_key_comm : (a b : ApiKey) → same_key a b ≡ same_key b a
same_key_comm a b = ground (arith, same_comm b.tenant_id a.tenant_id, same_comm b.key_id a.key_id)

pub same_key_of :
    (a b : ApiKey) → a.tenant_id ≡ b.tenant_id → a.key_id ≡ b.key_id → same_key a b ≡ true
same_key_of a b p q = rw (p, q) (rw (same_refl b.tenant_id, same_refl b.key_id))

-- What `VerifyAPIKey` found for a key that it accepts.
pub record Accepted ⦃u : Casing⦄ ⦃d : Digest⦄ (ds : List ApiKey) (tenant_id api_key : Text)
    : Type 0 where
  pub entry : ApiKey
  pub stored : Memᴰ entry ds
  pub of_tenant : entry.tenant_id ≡ normalize_slug tenant_id
  pub active : entry.revoked_at ≡ none
  pub hash : hex_decode entry.key_hash ≡ some (d.sum256 api_key)
  pub cut_at : (secret : Text) × (cut b'.' (trim_space api_key) ≡ some (entry.key_id, secret))

module _ ⦃u : Casing⦄ ⦃d : Digest⦄ {K : Type 0} (keys : Collection K ApiKey)
    (laws : IsMongo keys) where
  check_record_lem :
      (api_key : Text) (r : ApiKey) (s : K)
      → (check_record keys api_key r s).1 ≡ ok tt
      → (r.revoked_at ≡ none) × (hex_decode r.key_hash ≡ some (d.sum256 api_key))
  unfolding check_record
  check_record_lem api_key r s h = elim (Option-cases (hex_decode r.key_hash)) [
    | inl unreadable ↦ absurd (ground arith)
    | inr (hash, readable) ↦
        let equal : same (d.sum256 api_key) hash ≡ true = ground arith in
        let same_hash : d.sum256 api_key ≡ hash = (same_iff _ _).0 equal in
        (ground arith, readable ∙ ap some (sym same_hash))
  ]

  -- What `VerifyAPIKey` accepts is a secret whose SHA-256 is stored in a record of the tenant that
  -- `normalizeSlug` makes of the header, under the id before the dot, and that is not revoked.
  pub verify_api_key-Accepted :
      (tenant_id api_key : Text) (s : K)
      → (verify_api_key keys tenant_id api_key s).1 ≡ ok tt
      → Accepted (keys.docs s) tenant_id api_key
  unfolding verify_api_key
  verify_api_key-Accepted tenant_id api_key s h =
      elim (Option-cases (cut b'.' (trim_space api_key))) [
        | inl uncut ↦ absurd (ground arith)
        | inr ((key_id, secret), at_dot) ↦
            elim (Result-cases (keys.find_one (has_key (normalize_slug tenant_id) key_id) s)) [
              | inl (r, found) ↦
                  let (m, y) = laws.find_one_found _ s r found in
                  let (active, hash) = check_record_lem api_key r s (ground arith) in
                  let tenant_fits : same r.tenant_id (normalize_slug tenant_id) ≡ true =
                    ground arith in
                  let key_fits : same r.key_id key_id ≡ true = ground arith in
                  let key_same : r.key_id ≡ key_id = (same_iff _ _).0 key_fits in
                  record {
                    entry = r;
                    stored = m;
                    of_tenant = (same_iff _ _).0 tenant_fits;
                    active = active;
                    hash = hash;
                    cut_at = (secret, at_dot ∙ ap (λ k. some (k, secret)) (sym key_same));
                  }
              | inr (e, failed) ↦ absurd (ground arith)
            ]
      ]

  abbrev active_key : Text → Text → ApiKey → Bool
  active_key tenant_id key_id r =
      has_key (normalize_slug tenant_id) (trim_space key_id) r && is_none r.revoked_at

  abbrev revoke_at : Time → ApiKey → ApiKey
  revoke_at now r = record r { revoked_at = some now; updated_at = now }

  -- A successful `RevokeAPIKey` is the update of one record.
  revoke_api_key_lem :
      (tenant_id key_id : Text) (now : Time) (s : K)
      → (revoke_api_key keys tenant_id key_id now s).1 ≡ ok tt
      → let u = keys.update_one (active_key tenant_id key_id) (revoke_at now) s in
        ((revoke_api_key keys tenant_id key_id now s).0 ≡ u.0) × (n : ℕ) × (u.1 ≡ ok n) × (n ≢ 0)
  unfolding revoke_api_key
  revoke_api_key_lem tenant_id key_id now s h =
      elim (Result-cases (keys.update_one (active_key tenant_id key_id) (revoke_at now) s).1) [
        | inl (n, updated) ↦ (ground arith, n, updated, ground arith)
        | inr (e, failed) ↦ absurd (ground arith)
      ]

  abbrev IsRevoked : Text → Text → Time → ApiKey → Type 0
  IsRevoked tenant_id key_id now r =
      (r.tenant_id ≡ normalize_slug tenant_id)
      × (r.key_id ≡ trim_space key_id)
      × (r.revoked_at ≡ some now)

  update-IsRevoked :
      (tenant_id key_id : Text) (now : Time) (n : ℕ) (ds ds' : List ApiKey)
      → n ≢ 0
      → Updated (active_key tenant_id key_id) (revoke_at now) ds n ds'
      → (r : ApiKey) × Memᴰ r ds' × IsRevoked tenant_id key_id now r
  update-IsRevoked tenant_id key_id now n ds ds' h (missed none_fits zero_matched same_docs) =
      absurd (h zero_matched)
  update-IsRevoked tenant_id key_id now n ds ds' h (hit xs r ys fits one_matched old new) =
      let tenant_fits : same r.tenant_id (normalize_slug tenant_id) ≡ true = ground arith in
      let key_fits : same r.key_id (trim_space key_id) ≡ true = ground arith in
      (
        revoke_at now r,
        rw new (Memᴰ.append_right xs (Memᴰ.head refl)),
        ((same_iff _ _).0 tenant_fits, (same_iff _ _).0 key_fits, refl),
      )

  IsRevoked-entry :
      (tenant_id key_id : Text) (now : Time) (s : K)
      → (revoke_api_key keys tenant_id key_id now s).1 ≡ ok tt
      → (r : ApiKey) × Memᴰ r (keys.docs (revoke_api_key keys tenant_id key_id now s).0)
        × IsRevoked tenant_id key_id now r
  IsRevoked-entry tenant_id key_id now s h =
      let (same_state, n, updated, some_matched) = revoke_api_key_lem tenant_id key_id now s h in
      rw same_state (
        update-IsRevoked tenant_id key_id now n _ _ some_matched
          (laws.update_one_done _ _ s n updated))

  -- Behind a successful `RevokeAPIKey`, and as long as the unique index on the tenant and the key's id
  -- holds, `VerifyAPIKey` accepts no secret of that key for that tenant, however the tenant is spelled.
  pub verify-revoke :
      (tenant_id key_id : Text) (now : Time) (s : K) (header secret api_key : Text)
      → (revoke_api_key keys tenant_id key_id now s).1 ≡ ok tt
      → Unique same_key (keys.docs (revoke_api_key keys tenant_id key_id now s).0)
      → normalize_slug header ≡ normalize_slug tenant_id
      → cut b'.' (trim_space api_key) ≡ some (trim_space key_id, secret)
      → (verify_api_key keys header api_key (revoke_api_key keys tenant_id key_id now s).0).1
        ≢ ok tt
  verify-revoke tenant_id key_id now s header secret api_key done unique spelled split accepted =
      let s' = (revoke_api_key keys tenant_id key_id now s).0 in
      let a = verify_api_key-Accepted header api_key s' accepted in
      let (r, m, (tenant, key, revoked)) = IsRevoked-entry tenant_id key_id now s done in
      let same_id : a.entry.key_id ≡ trim_space key_id = cc (a.cut_at.1, split) in
      let agree : same_key a.entry r ≡ true =
        same_key_of a.entry r (a.of_tenant ∙ spelled ∙ sym tenant) (same_id ∙ sym key) in
      let e : a.entry ≡ r =
        Unique-eq same_key same_key_comm (keys.docs s') a.entry r unique a.stored m agree in
      cc (a.active, revoked, ap (λ (x : ApiKey). x.revoked_at) e)
