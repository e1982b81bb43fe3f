-- ===== src/Http/Person.antt =====
-- The handlers of internal/http/resolve.go, review.go and lookup.go, and the services that they call.
-- A body is `none` where it does not decode. The page that a handler writes is its reply's payload.
pub mod Laws
mod Tests
use kd_server.Common.{
  ℕ, zero, suc, ◌+◌, ◌-◌, ◌*◌, ◌/◌, ◌%◌, ◌^◌, ◌≤◌, ◌<◌, String, ◌≡◌, refl, sym, ap, ◌∙◌, ◌≢◌, ◌↔◌,
  ◌⊎◌, inl, inr, Bool, true, false, not, ◌&&◌, ◌||◌, Option, none, some, List, [], ◌∷◌, ◌++◌, map,
  Memᴰ, arith, ltb, leb, ◌==◌, ==_iff, within, if◌then◌else◌, Bool-cases, Option-cases,
  Result-cases, length, take, drop, any, all, keep, length-append, All, All-append, All-map,
  All-mem, Result, ok, err, Error, message, about, wrap, fault, no_documents, duplicate_key,
  is_no_documents,
}
use kd_server.Text.{
  Text, codes, same, is_empty, is_blank, is_space, trim_space, Casing, to_lower, to_upper,
  has_prefix, trim_prefix, cut, same_iff, same_refl,
}
use kd_server.Mongo.{
  Action, after, ◌>>=◌, ◌>>◌, pure, raise, require, on_error, reading, writing, Query, page,
  Collection,
}
use kd_server.Mongo.Laws.{
  IsMongo, Updated, missed, hit, Unique, Unique-eq, after-eq-ok, require-eq-ok, on_error-eq-ok,
  IsOrder,
}
use kd_server.Json.{Json, Value, string_at}
use kd_server.Time.{Time, before}
use kd_server.Tenant.{ObjectId, not_configured}
use kd_server.Ingest.{RawRecord, tenant_required}
use kd_server.Asset.Store.{or_kept}
use kd_server.Format.{ℤ, pos, negsuc}
use kd_server.Person.{
  Person, Link, PersonIdentifiers, raw_status_pending, raw_status_resolved, raw_status_needs_review,
  by_key, is_anonymous, shares_identifier, or_old, set_identifiers, find_person_by_identifiers,
  create_person, update_person_identifiers, is_link, upsert_link, Registry, on_people, on_links,
  on_raw, find_person_with_links, find_person_with_links_by_email, find_person_with_links_by_phone,
  or_hundred, one_of, set_status, is_raw, list_raw_by_status, mark, update_raw_status,
  raw_needs_review,
}
use kd_server.Person.Laws.{
  is_person, is_settled, settled_at, raw_of, link_of, same_trans, update_person_identifiers-kept,
  create_person-made, upsert_link-Kept, update_raw_status-Kept,
}
use kd_server.Person.Resolve.{
  ResolveResult, Draws, Tally, no_tally, to_review, result_of, first_non_empty, link_external_id,
  extract_identifiers, matched, match_person, resolve_known, resolve_record, resolve_all,
  review_all, resolve,
}
use kd_server.Person.Review.{
  ReviewItem, review_item, object_id_from_hex, rejected, decided_status, needed, no_review_store,
  list_review, decide,
}
use kd_server.Person.Lookup.{
  PersonPayload, LinkPayload, PersonView, to_person_payload, to_link_payload, to_link_payloads,
  to_view, fetch, by_phone, by_email,
}
use kd_server.Http.{Reply, failed, failed_with, done, Handler}
use kd_server.Asset.Number.{split}

-- `TenantFromContext`, with the answer where it has none.
abbrev pub with_tenant : {S B : Type 0} → Option Text → (Text → Handler S B) → Handler S B
with_tenant none h s = (s, failed 500 "tenant context missing")
with_tenant (some tenant) h s = h tenant s

-- The body of a resolve request: none at all is a batch size of 0.
pub data ResolveBody : Type 0 where
  end_of_file malformed : ResolveBody
  batch : ℤ → ResolveBody

abbrev pub resolve_reply : {S : Type 0} → S × Result ResolveResult → S × Reply ResolveResult
resolve_reply (s, ok r) = (s, done 200 r)
resolve_reply (s, err e) = (s, failed 500 "resolve failed")

module _ ⦃u : Casing⦄ {P L R : Type 0} (people : Collection P Person) (links : Collection L Link)
    (raw : Collection R RawRecord) where
  abbrev resolve_body :
      Bool → (ℕ → Draws) → Time → ResolveBody → Text → Handler (Registry P L R) ResolveResult
  resolve_body store draws now end_of_file tenant s =
      resolve_reply (resolve people links raw store tenant (pos 0) draws now s)
  resolve_body store draws now malformed tenant s = (s, failed 400 "invalid payload")
  resolve_body store draws now (batch n) tenant s =
      resolve_reply (resolve people links raw store tenant n draws now s)

  unfoldable pub resolve_handler :
      (store : Bool)
      → (draws : ℕ → Draws) → (now : Time) → Option Text
      → ResolveBody
      → Handler (Registry P L R) ResolveResult
  resolve_handler store draws now context body =
      with_tenant context (resolve_body store draws now body)

abbrev pub review_list_reply :
    {S : Type 0} → S × Result (List ReviewItem) → S × Reply (List ReviewItem)
review_list_reply (s, ok items) = (s, done 200 items)
review_list_reply (s, err e) = (s, failed 500 "review fetch failed")

abbrev pub decision_reply : {S : Type 0} → S × Result (Unit {0}) → S × Reply Text
decision_reply (s, ok _) = (s, done 200 (codes "updated"))
decision_reply (s, err e) = (s, failed_with 400 e)

module _ {R : Type 0} (raw : Collection R RawRecord) where
  -- `status` is the parameter of the query.
  unfoldable pub review_list_handler :
      (store : Bool) → Option Text → (status : Text) → Handler R (List ReviewItem)
  review_list_handler store context status =
      with_tenant context
        (λ tenant s. review_list_reply (list_review raw store tenant status (pos 100) s))

  module _ ⦃u : Casing⦄ where
    abbrev pub decision_body : Bool → Text → Time → Option Text → Text → Handler R Text
    decision_body store raw_id now none tenant s = (s, failed 400 "invalid payload")
    decision_body store raw_id now (some decision) tenant s =
        decision_reply (decide raw store tenant raw_id decision now s)

    -- The id is the first part of the path, in front of at least one more.
    abbrev pub decision_path : Bool → List Text → Time → Option Text → Text → Handler R Text
    decision_path store (raw_id ∷ _ ∷ _) now body tenant s =
        decision_body store raw_id now body tenant s
    decision_path store _ now body tenant s = (s, failed 400 "invalid path")

    unfoldable pub review_decision_handler :
        (store : Bool)
        → (now : Time) → Option Text
        → (method path : Text) → (body : Option Text) → Handler R Text
    unfolding split trim_prefix
    review_decision_handler store now context method path body s =
        if not (same method (codes "POST"))
        then (s, failed 405 "method not allowed")
        else with_tenant context
            (decision_path store (split b'/' (trim_prefix (codes "/v1/review/") path)) now body) s

abbrev pub is_exactly_no_documents : Error → Bool
is_exactly_no_documents no_documents = true
is_exactly_no_documents _ = false

abbrev pub lookup_reply : {S : Type 0} → S × Result PersonView → S × Reply PersonView
lookup_reply (s, ok view) = (s, done 200 view)
lookup_reply (s, err e) =
    (s, if is_exactly_no_documents e then failed 404 "not found" else failed 500 "lookup failed")

module _ {P L R : Type 0} (people : Collection P Person) (links : Collection L Link) where
  unfoldable pub lookup_phone_handler :
      (store : Bool) → Option Text → (path : Text) → Handler (Registry P L R) PersonView
  unfolding trim_prefix
  lookup_phone_handler store context path = with_tenant context (λ tenant s.
      let e164 = trim_space (trim_prefix (codes "/v1/lookup/phone/") path) in
      if is_empty e164
      then (s, failed 400 "phone required")
      else lookup_reply (by_phone people links store tenant e164 s))

module _ ⦃u : Casing⦄ {P L R : Type 0} (people : Collection P Person)
    (links : Collection L Link) where
  unfoldable pub lookup_email_handler :
      (store : Bool) → Option Text → (path : Text) → Handler (Registry P L R) PersonView
  unfolding trim_prefix
  lookup_email_handler store context path = with_tenant context (λ tenant s.
      let email = trim_space (trim_prefix (codes "/v1/lookup/email/") path) in
      if is_empty email
      then (s, failed 400 "email required")
      else lookup_reply (by_email people links store tenant email s))
