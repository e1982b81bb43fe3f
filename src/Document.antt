-- ===== src/Document.antt =====
-- Identity documents: internal/store/identity_document.go, with the types of internal/store/models.go. The
-- new ids and the moment that a call reads from the clock are its arguments.
pub mod Service
pub mod Laws
pub mod Archive
pub mod Checks
mod Tests
use kd_server.Common.{
  ℕ, zero, suc, ◌+◌, ◌-◌, ◌*◌, ◌/◌, ◌%◌, ◌^◌, ◌≤◌, ◌<◌, String, ◌≡◌, refl, sym, ap, ◌∙◌, ◌≢◌, ◌↔◌,
  ◌⊎◌, inl, inr, Bool, true, false, not, ◌&&◌, ◌||◌, Option, none, some, List, [], ◌∷◌, ◌++◌, map,
  Memᴰ, arith, ltb, leb, ◌==◌, ==_iff, within, if◌then◌else◌, Bool-cases, Option-cases,
  Result-cases, length, take, drop, any, all, keep, length-append, All, All-append, All-map,
  All-mem, Result, ok, err, Error, message, about, wrap, fault, no_documents, duplicate_key,
  is_no_documents,
}
use kd_server.Text.{
  Text, codes, same, is_empty, is_blank, is_space, trim_space, Casing, to_lower, to_upper,
  has_prefix, trim_prefix, cut, same_iff, same_refl,
}
use kd_server.Mongo.{
  Action, after, ◌>>=◌, ◌>>◌, pure, raise, require, on_error, reading, writing, Query, page,
  Collection,
}
use kd_server.Mongo.Laws.{
  IsMongo, Updated, missed, hit, Unique, Unique-eq, after-eq-ok, require-eq-ok, on_error-eq-ok,
  IsOrder,
}
use kd_server.Asset.{Float}
use kd_server.Time.{Time, before, parse_date, format_date}
use kd_server.Tenant.{ObjectId, not_configured}
use kd_server.Ingest.{tenant_required}
use kd_server.Format.{ℤ, pos, negsuc, next_int}
use kd_server.Person.{Person}
use kd_server.Person.Laws.{is_person}
use kd_server.Asset.Store.{given}

pub record LocalizedText : Type 0 where
  pub english : Text
  pub dhivehi : Text

pub record IdentityAddress : Type 0 where
  pub house : LocalizedText
  pub island : LocalizedText

pub record IdentityDocument : Type 0 where
  pub id : ObjectId
  pub tenant_id : Text
  pub document_id : Text
  pub person_id : Text
  pub document_type : Text
  pub country_code : Text
  pub national_id : Text
  pub serial_number : Text
  pub name : LocalizedText
  pub common_name : LocalizedText
  pub sex : Text
  pub date_of_birth : Text
  pub address : IdentityAddress
  pub blood_group : Text
  pub expiry_date : Text
  pub signature_present : Bool
  pub fingerprint_present : Bool
  pub source : Text
  pub extraction_method : Text
  pub field_confidence : List (Text × Float)
  pub verification_status : Text
  pub verified_by : Text
  pub front_image_ref : Text
  pub back_image_ref : Text
  pub version : ℤ
  pub created_at : Time
  pub updated_at : Time

pub record IdentityDocumentHistory : Type 0 where
  pub id : ObjectId
  pub tenant_id : Text
  pub document_id : Text
  pub person_id : Text
  pub event_type : Text
  pub actor : Text
  pub version : ℤ
  pub snapshot : IdentityDocument
  pub created_at : Time

-- The state of the collections that a document is kept in.
pub record Cabinet (P D H : Type 0) : Type 0 where
  pub people : P
  pub documents : D
  pub history : H

module _ {P D H : Type 0} where
  abbrev pub on_people : {B : Type 0} → Action P B → Action (Cabinet P D H) B
  on_people m s = let (p, r) = m s.people in (record s { people = p }, r)

  abbrev pub on_documents : {B : Type 0} → Action D B → Action (Cabinet P D H) B
  on_documents m s = let (d, r) = m s.documents in (record s { documents = d }, r)

  abbrev pub on_history : {B : Type 0} → Action H B → Action (Cabinet P D H) B
  on_history m s = let (h, r) = m s.history in (record s { history = h }, r)

-- The new ids of a document, of its key and of the event.
pub record Ids : Type 0 where
  pub object : ObjectId
  pub key : ObjectId
  pub event : ObjectId

-- `if limit <= 0 || limit > 100 { limit = 50 }`
abbrev pub or_fifty : ℤ → ℕ
or_fifty (pos n) = if within 1 100 n then n else 50
or_fifty (negsuc n) = 50

unfoldable pub document_matches : Text → Text → IdentityDocument → Bool
document_matches tenant person d = same d.tenant_id tenant && given person d.person_id

module _ {D : Type 0} (documents : Collection D IdentityDocument) where
  -- The cursor's reads are part of `find`.
  unfoldable pub list_identity_documents : Text → Text → ℤ → Action D (List IdentityDocument)
  unfolding document_matches
  list_identity_documents tenant person limit = do
    require documents.configured not_configured
    reading (wrap "store: list identity documents") (
        documents.find (record {
          matches = document_matches (trim_space tenant) (trim_space person);
          precedes = λ c d. not (before c.updated_at d.updated_at);
          skip = 0;
          limit = or_fifty limit;
        }))

abbrev pub has_document : Text → Text → IdentityDocument → Bool
has_document tenant document d = same d.tenant_id tenant && same d.document_id document

abbrev pub missing_document : Error → Error
missing_document e =
    if is_no_documents e
    then message "store: identity document not found"
    else wrap "store: find identity document" e

-- A new document, and the next version of an existing one.
abbrev pub first_version : Time → Ids → IdentityDocument → IdentityDocument
first_version now ids d = record d {
  id = ids.object;
  document_id = codes "doc_" ++ ids.key;
  version = pos 1;
  created_at = now;
  updated_at = now;
}

abbrev pub next_version : Time → IdentityDocument → IdentityDocument → IdentityDocument
next_version now existing d = record d {
  id = existing.id;
  version = next_int existing.version;
  created_at = existing.created_at;
  updated_at = now;
}

abbrev pub event_type_of : Bool → Text
event_type_of true = codes "created"
event_type_of false = codes "updated"

abbrev pub history_entry : Bool → Text → Time → Ids → IdentityDocument → IdentityDocumentHistory
history_entry is_new actor now ids d = record {
  id = ids.event;
  tenant_id = d.tenant_id;
  document_id = d.document_id;
  person_id = d.person_id;
  event_type = event_type_of is_new;
  actor = trim_space actor;
  version = d.version;
  snapshot = d;
  created_at = now;
}

module _ {D : Type 0} (documents : Collection D IdentityDocument) where
  -- From the switch on `isNew` to `document.UpdatedAt`.
  unfoldable pub versioned :
      (is_new : Bool) → Time → Ids → IdentityDocument → Action D IdentityDocument
  unfolding next_int
  versioned true now ids d = pure (first_version now ids d)
  versioned false now ids d = do
    existing ←
        reading missing_document (documents.find_one (has_document d.tenant_id d.document_id))
    pure (next_version now existing d)

  -- `InsertOne`, or `ReplaceOne`, which is an update of one document to a whole new one.
  unfoldable pub put_document : (is_new : Bool) → IdentityDocument → Action D (Unit {0})
  put_document true d = writing (wrap "store: insert identity document") (documents.insert_one d)
  put_document false d = do
    matched ←
        writing (wrap "store: update identity document")
          (documents.update_one (has_document d.tenant_id d.document_id) (λ old. d))
    pure tt

module _ {P D H : Type 0} (people : Collection P Person) (documents : Collection D IdentityDocument)
    (history : Collection H IdentityDocumentHistory) where
  -- The count stops at one person, which its test against 0 does not tell apart.
  unfoldable pub save_identity_document :
      IdentityDocument → Text → (now : Time) → (ids : Ids) → Action (Cabinet P D H) IdentityDocument
  unfolding versioned put_document
  save_identity_document document actor now ids = do
    require (people.configured && documents.configured && history.configured) not_configured
    persons ← on_people (
        reading (wrap "store: verify identity document person")
          (people.count (is_person document.tenant_id document.person_id)))
    require (not (persons == 0)) (message "store: linked person not found")
    let is_new = is_blank document.document_id
    d ← on_documents (versioned documents is_new now ids document)
    on_documents (put_document documents is_new d)
    on_history (
        writing (wrap "store: insert identity document history")
          (history.insert_one (history_entry is_new actor now ids d)))
    pure d
