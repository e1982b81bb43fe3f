-- ===== src/Person/Lookup.antt =====
-- internal/services/lookup.go: a person with the links, by email or by phone.
pub mod Laws
mod Tests
use kd_server.Common.{
  ℕ, zero, suc, ◌+◌, ◌-◌, ◌*◌, ◌/◌, ◌%◌, ◌^◌, ◌≤◌, ◌<◌, String, ◌≡◌, refl, sym, ap, ◌∙◌, ◌≢◌, ◌↔◌,
  ◌⊎◌, inl, inr, Bool, true, false, not, ◌&&◌, ◌||◌, Option, none, some, List, [], ◌∷◌, ◌++◌, map,
  Memᴰ, arith, ltb, leb, ◌==◌, ==_iff, within, if◌then◌else◌, Bool-cases, Option-cases,
  Result-cases, length, take, drop, any, all, keep, length-append, All, All-append, All-map,
  All-mem, Result, ok, err, Error, message, about, wrap, fault, no_documents, duplicate_key,
  is_no_documents,
}
use kd_server.Text.{
  Text, codes, same, is_empty, is_blank, is_space, trim_space, Casing, to_lower, to_upper,
  has_prefix, trim_prefix, cut, same_iff, same_refl,
}
use kd_server.Mongo.{
  Action, after, ◌>>=◌, ◌>>◌, pure, raise, require, on_error, reading, writing, Query, page,
  Collection,
}
use kd_server.Mongo.Laws.{
  IsMongo, Updated, missed, hit, Unique, Unique-eq, after-eq-ok, require-eq-ok, on_error-eq-ok,
  IsOrder,
}
use kd_server.Json.{Json, Value, text, stringer, other, string_at}
use kd_server.Time.{Time, before}
use kd_server.Tenant.{ObjectId, not_configured}
use kd_server.Ingest.{RawRecord, tenant_required}
use kd_server.Asset.Store.{or_kept}
use kd_server.Format.{ℤ, pos, negsuc}
use kd_server.Person.{
  Person, Link, PersonIdentifiers, raw_status_pending, raw_status_resolved, raw_status_needs_review,
  by_key, is_anonymous, shares_identifier, or_old, set_identifiers, find_person_by_identifiers,
  create_person, update_person_identifiers, is_link, upsert_link, Registry, on_people, on_links,
  on_raw, find_person_with_links, find_person_with_links_by_email, find_person_with_links_by_phone,
  or_hundred, one_of, set_status, is_raw, list_raw_by_status, mark, update_raw_status,
  raw_needs_review,
}

pub record PersonPayload : Type 0 where
  pub person_id : Text
  pub tenant_id : Text
  pub national_id : Text
  pub primary_email : Text
  pub primary_phone : Text
  pub attributes : Json
  pub created_at : Time
  pub updated_at : Time

pub record LinkPayload : Type 0 where
  pub source : Text
  pub external_id : Text
  pub payload : Json
  pub created_at : Time
  pub updated_at : Time

pub record PersonView : Type 0 where
  pub person : PersonPayload
  pub links : List LinkPayload

unfoldable pub to_person_payload : Person → PersonPayload
to_person_payload p = record {
  person_id = p.person_id;
  tenant_id = p.tenant_id;
  national_id = p.national_id;
  primary_email = p.primary_email;
  primary_phone = p.primary_phone;
  attributes = p.attributes;
  created_at = p.created_at;
  updated_at = p.updated_at;
}

abbrev pub to_link_payload : Link → LinkPayload
to_link_payload l = record {
  source = l.source;
  external_id = l.external_id;
  payload = l.payload;
  created_at = l.created_at;
  updated_at = l.updated_at;
}

unfoldable pub to_link_payloads : List Link → List LinkPayload
to_link_payloads [] = []
to_link_payloads (l ∷ ls) = to_link_payload l ∷ to_link_payloads ls

abbrev pub to_view : Person × List Link → PersonView
to_view (p, ls) = record { person = to_person_payload p; links = to_link_payloads ls }

module _ {P L R : Type 0} where
  -- `store` says whether the service has one.
  unfoldable pub fetch :
      (store : Bool)
      → Text
      → (finder : Text → Action (Registry P L R) (Person × List Link))
      → Action (Registry P L R) PersonView
  unfolding to_person_payload to_link_payloads
  fetch store tenant finder = do
    require store (message "services: lookup store not configured")
    require (not (is_blank tenant)) tenant_required
    found ← finder tenant
    pure (to_view found)

module _ {P L R : Type 0} (people : Collection P Person) (links : Collection L Link) where
  unfoldable pub by_phone : (store : Bool) → Text → Text → Action (Registry P L R) PersonView
  unfolding fetch
  by_phone store tenant phone = do
    require (not (is_blank phone)) (message "services: phone required")
    fetch store tenant (λ t. find_person_with_links_by_phone people links t phone)

module _ ⦃u : Casing⦄ {P L R : Type 0} (people : Collection P Person)
    (links : Collection L Link) where
  unfoldable pub by_email : (store : Bool) → Text → Text → Action (Registry P L R) PersonView
  unfolding fetch
  by_email store tenant email = do
    require (not (is_blank email)) (message "services: email required")
    fetch store tenant
        (λ t. find_person_with_links_by_email people links t (to_lower (trim_space email)))
