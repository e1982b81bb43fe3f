-- ===== src/Person/Resolve.antt =====
-- internal/services/resolve.go: raw records that wait become persons with links, or wait for a review.
-- The partial counts that come with an error are left out: both callers drop them.
pub mod Steps
pub mod Kept
pub mod Loop
pub mod Laws
mod Tests
use kd_server.Common.{
  ℕ, zero, suc, ◌+◌, ◌-◌, ◌*◌, ◌/◌, ◌%◌, ◌^◌, ◌≤◌, ◌<◌, String, ◌≡◌, refl, sym, ap, ◌∙◌, ◌≢◌, ◌↔◌,
  ◌⊎◌, inl, inr, Bool, true, false, not, ◌&&◌, ◌||◌, Option, none, some, List, [], ◌∷◌, ◌++◌, map,
  Memᴰ, arith, ltb, leb, ◌==◌, ==_iff, within, if◌then◌else◌, Bool-cases, Option-cases,
  Result-cases, length, take, drop, any, all, keep, length-append, All, All-append, All-map,
  All-mem, Result, ok, err, Error, message, about, wrap, fault, no_documents, duplicate_key,
  is_no_documents,
}
use kd_server.Text.{
  Text, codes, same, is_empty, is_blank, is_space, trim_space, Casing, to_lower, to_upper,
  has_prefix, trim_prefix, cut, same_iff, same_refl,
}
use kd_server.Mongo.{
  Action, after, ◌>>=◌, ◌>>◌, pure, raise, require, on_error, reading, writing, Query, page,
  Collection,
}
use kd_server.Mongo.Laws.{
  IsMongo, Updated, missed, hit, Unique, Unique-eq, after-eq-ok, require-eq-ok, on_error-eq-ok,
  IsOrder,
}
use kd_server.Json.{Json, Value, text, stringer, other, string_at}
use kd_server.Time.{Time, before}
use kd_server.Tenant.{ObjectId, not_configured}
use kd_server.Ingest.{RawRecord, tenant_required}
use kd_server.Asset.Store.{or_kept}
use kd_server.Format.{ℤ, pos, negsuc}
use kd_server.Person.{
  Person, Link, PersonIdentifiers, raw_status_pending, raw_status_resolved, raw_status_needs_review,
  by_key, is_anonymous, shares_identifier, or_old, set_identifiers, find_person_by_identifiers,
  create_person, update_person_identifiers, is_link, upsert_link, Registry, on_people, on_links,
  on_raw, find_person_with_links, find_person_with_links_by_email, find_person_with_links_by_phone,
  or_hundred, one_of, set_status, is_raw, list_raw_by_status, mark, update_raw_status,
  raw_needs_review,
}

pub record ResolveResult : Type 0 where
  pub resolved : ℕ
  pub needs_review : ℕ
  pub skipped : ℕ

-- The new ids and the times that one record takes: the person is made or updated at `matched_at`.
pub record Draws : Type 0 where
  pub person_object : ObjectId
  pub person_key : ObjectId
  pub link_object : ObjectId
  pub matched_at : Time
  pub linked_at : Time
  pub marked_at : Time

-- `reviewIDs`, and the two counters of `result`.
pub record Tally : Type 0 where
  pub review_ids : List ObjectId
  pub resolved : ℕ
  pub needs_review : ℕ

abbrev pub no_tally : Tally
no_tally = record { review_ids = []; resolved = 0; needs_review = 0 }

abbrev pub to_review : RawRecord → Tally → Tally
to_review d tally = record tally {
  review_ids = tally.review_ids ++ d.id ∷ [];
  needs_review = suc tally.needs_review;
}

abbrev pub result_of : List RawRecord → Tally → ResolveResult
result_of ds tally = record {
  resolved = tally.resolved;
  needs_review = tally.needs_review;
  skipped = length ds - tally.resolved - tally.needs_review;
}

-- `firstNonEmpty`
unfoldable pub first_non_empty : List Text → Text
first_non_empty [] = []
first_non_empty (v ∷ vs) = let rest = first_non_empty vs in if is_blank v then rest else v

-- `externalID`; the object id of a record is kept as its hexadecimal text.
unfoldable pub link_external_id : RawRecord → Text
unfolding first_non_empty
link_external_id d =
    first_non_empty
      (string_at (codes "external_id") d.payload ∷ string_at (codes "id") d.payload ∷ d.id ∷ [])

module _ ⦃u : Casing⦄ where
  -- `extractIdentifiers`
  unfoldable pub extract_identifiers : Json → PersonIdentifiers
  extract_identifiers payload = record {
    national_id = string_at (codes "national_id") payload;
    email = to_lower (trim_space (string_at (codes "email") payload));
    phone = trim_space (string_at (codes "phone") payload);
  }

module _ {P : Type 0} (people : Collection P Person) where
  -- Behind the query: a person that is found is updated, a missing one is made.
  abbrev pub matched : Text → PersonIdentifiers → Json → Draws → Result Person → Action P Person
  matched tenant i payload draws (ok p) = do
    update_person_identifiers people p.person_id i draws.matched_at
    pure p
  matched tenant i payload draws (err e) =
      if is_no_documents e
      then create_person people tenant i payload draws.matched_at draws.person_object
          draws.person_key
      else raise e

  unfoldable pub match_person : Text → PersonIdentifiers → Json → Draws → Action P Person
  match_person tenant i payload draws s =
      let (s', found) = find_person_by_identifiers people tenant i s in
      matched tenant i payload draws found s'

module _ ⦃u : Casing⦄ {P L R : Type 0} (people : Collection P Person) (links : Collection L Link)
    (raw : Collection R RawRecord) where
  -- A record with an identifier.
  unfoldable pub resolve_known :
      Text → PersonIdentifiers → Draws → RawRecord → Tally → Action (Registry P L R) Tally
  unfolding match_person
  resolve_known tenant i draws d tally = do
    person ← on_people (match_person people tenant i d.payload draws)
    on_links (
        upsert_link links tenant person.person_id d.source_slug (link_external_id d) d.payload
          draws.linked_at draws.link_object)
    on_raw (
        update_raw_status raw tenant (d.id ∷ []) raw_status_resolved person.person_id
          draws.marked_at)
    pure (record tally { resolved = suc tally.resolved })

  -- The body of the loop.
  unfoldable pub resolve_record : Text → Draws → RawRecord → Tally → Action (Registry P L R) Tally
  unfolding resolve_known extract_identifiers
  resolve_record tenant draws d tally =
      if is_anonymous (extract_identifiers d.payload)
      then pure (to_review d tally)
      else resolve_known tenant (extract_identifiers d.payload) draws d tally

  -- The loop, from the record at the place `i` on.
  unfoldable pub resolve_all :
      Text → (ℕ → Draws) → ℕ → List RawRecord → Tally → Action (Registry P L R) Tally
  unfolding resolve_record
  resolve_all tenant draws i [] tally = pure tally
  resolve_all tenant draws i (d ∷ ds) tally = do
    tally' ← resolve_record tenant (draws i) d tally
    resolve_all tenant draws (suc i) ds tally'

  -- The records that were put aside, if any.
  abbrev pub review_all : Text → List ObjectId → Time → Action (Registry P L R) (Unit {0})
  review_all tenant [] reviewed_at = pure tt
  review_all tenant (i ∷ is) reviewed_at =
      on_raw (update_raw_status raw tenant (i ∷ is) raw_status_needs_review [] reviewed_at)

  -- `store` says whether the service has one.
  unfoldable pub resolve :
      (store : Bool)
      → Text
      → ℤ
      → (draws : ℕ → Draws) → (reviewed_at : Time) → Action (Registry P L R) ResolveResult
  unfolding resolve_all
  resolve store tenant batch_size draws reviewed_at = do
    require store (message "services: resolve store not configured")
    require (not (is_blank tenant)) tenant_required
    ds ← on_raw (list_raw_by_status raw tenant raw_status_pending (pos (or_hundred batch_size)))
    tally ← resolve_all tenant draws 0 ds no_tally
    review_all tenant tally.review_ids reviewed_at
    pure (result_of ds tally)
