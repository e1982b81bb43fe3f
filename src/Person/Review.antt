-- ===== src/Person/Review.antt =====
-- internal/services/review.go: the raw records that wait for a review, and the decision on one.
pub mod Laws
mod Tests
use kd_server.Common.{
  ℕ, zero, suc, ◌+◌, ◌-◌, ◌*◌, ◌/◌, ◌%◌, ◌^◌, ◌≤◌, ◌<◌, String, ◌≡◌, refl, sym, ap, ◌∙◌, ◌≢◌, ◌↔◌,
  ◌⊎◌, inl, inr, Bool, true, false, not, ◌&&◌, ◌||◌, Option, none, some, List, [], ◌∷◌, ◌++◌, map,
  Memᴰ, arith, ltb, leb, ◌==◌, ==_iff, within, if◌then◌else◌, Bool-cases, Option-cases,
  Result-cases, length, take, drop, any, all, keep, length-append, All, All-append, All-map,
  All-mem, Result, ok, err, Error, message, about, wrap, fault, no_documents, duplicate_key,
  is_no_documents,
}
use kd_server.Text.{
  Text, codes, same, is_empty, is_blank, is_space, trim_space, Casing, to_lower, to_upper,
  has_prefix, trim_prefix, cut, same_iff, same_refl,
}
use kd_server.Mongo.{
  Action, after, ◌>>=◌, ◌>>◌, pure, raise, require, on_error, reading, writing, Query, page,
  Collection,
}
use kd_server.Mongo.Laws.{
  IsMongo, Updated, missed, hit, Unique, Unique-eq, after-eq-ok, require-eq-ok, on_error-eq-ok,
  IsOrder,
}
use kd_server.Json.{Json, Value, text, stringer, other, string_at}
use kd_server.Time.{Time, before}
use kd_server.Tenant.{ObjectId, not_configured}
use kd_server.Ingest.{RawRecord, tenant_required}
use kd_server.Asset.Store.{or_kept}
use kd_server.Format.{ℤ, pos, negsuc}
use kd_server.Person.{
  Person, Link, PersonIdentifiers, raw_status_pending, raw_status_resolved, raw_status_needs_review,
  by_key, is_anonymous, shares_identifier, or_old, set_identifiers, find_person_by_identifiers,
  create_person, update_person_identifiers, is_link, upsert_link, Registry, on_people, on_links,
  on_raw, find_person_with_links, find_person_with_links_by_email, find_person_with_links_by_phone,
  or_hundred, one_of, set_status, is_raw, list_raw_by_status, mark, update_raw_status,
  raw_needs_review,
}
use kd_server.Text.Encode.{hex_encode, hex_decode}

pub record ReviewItem : Type 0 where
  pub id : Text
  pub source_slug : Text
  pub payload : Json
  pub status : Text

abbrev pub review_item : RawRecord → ReviewItem
review_item d = record {
  id = d.id;
  source_slug = d.source_slug;
  payload = d.payload;
  status = d.status;
}

-- `primitive.ObjectIDFromHex`: 12 bytes, as 24 hexadecimal digits of either case. The id is kept as
-- its text in lower case.
unfoldable pub object_id_from_hex : Text → Option ObjectId
object_id_from_hex s = elim (hex_decode s) [
  | none ↦ none
  | some bytes ↦ if length bytes == 12 then some (hex_encode bytes) else none
]

abbrev pub rejected : Text
rejected = codes "rejected"

module _ ⦃u : Casing⦄ where
  -- The `switch` on the decision.
  unfoldable pub decided_status : Text → Option Text
  decided_status decision =
      if same (to_lower decision) (codes "accept")
      then some raw_status_resolved
      else if same (to_lower decision) (codes "reject")
      then some rejected
      else none

-- A value that is required.
abbrev pub needed {ℓ κ} : {S : Type ℓ} {A : Type κ} → Option A → Error → Action S A
needed none e = raise e
needed (some a) e = pure a

abbrev pub no_review_store : Error
no_review_store = message "services: review store not configured"

module _ {R : Type 0} (raw : Collection R RawRecord) where
  unfoldable pub list_review :
      (store : Bool) → Text → Text → (limit : ℤ) → Action R (List ReviewItem)
  list_review store tenant status limit = do
    require store no_review_store
    require (not (is_blank tenant)) tenant_required
    require (is_blank status || same status raw_status_needs_review)
        (message "services: unsupported review status")
    ds ← raw_needs_review raw tenant limit
    pure (map review_item ds)

module _ ⦃u : Casing⦄ {R : Type 0} (raw : Collection R RawRecord) where
  unfoldable pub decide : (store : Bool) → Text → Text → Text → (now : Time) → Action R (Unit {0})
  unfolding decided_status object_id_from_hex
  decide store tenant raw_id decision now = do
    require store no_review_store
    require (not (is_blank tenant)) tenant_required
    require (not (is_blank raw_id)) (message "services: raw id required")
    id ← needed (object_id_from_hex raw_id) (message "services: invalid raw id")
    status ←
        needed (decided_status decision) (message "services: decision must be 'accept' or 'reject'")
    update_raw_status raw tenant (id ∷ []) status [] now
