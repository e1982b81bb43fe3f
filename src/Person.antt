-- ===== src/Person.antt =====
-- internal/store/person.go and internal/store/raw.go: persons with their links, and the status of the raw
-- records. The new ids and the times that a call reads from the clock are its arguments.
pub mod Laws
pub mod Listing
pub mod Resolve
pub mod Review
pub mod Lookup
pub mod Samples
use kd_server.Common.{
  guard, ℕ, zero, suc, ◌+◌, ◌-◌, ◌*◌, ◌/◌, ◌%◌, ◌^◌, ◌≤◌, ◌<◌, String, ◌≡◌, refl, sym, ap, ◌∙◌, ◌≢◌,
  ◌↔◌, ◌⊎◌, inl, inr, Bool, true, false, not, ◌&&◌, ◌||◌, Option, none, some, List, [], ◌∷◌, ◌++◌,
  map, Memᴰ, arith, ltb, leb, ◌==◌, ==_iff, within, if◌then◌else◌, Bool-cases, Option-cases,
  Result-cases, length, take, drop, any, all, keep, length-append, All, All-append, All-map,
  All-mem, Result, ok, err, Error, message, about, wrap, fault, no_documents, duplicate_key,
  is_no_documents,
}
use kd_server.Text.{
  Text, codes, same, is_empty, is_blank, is_space, trim_space, Casing, to_lower, to_upper,
  has_prefix, trim_prefix, cut, same_iff, same_refl,
}
use kd_server.Mongo.{
  Action, after, ◌>>=◌, ◌>>◌, pure, raise, require, on_error, reading, writing, Query, page,
  Collection,
}
use kd_server.Mongo.Laws.{
  IsMongo, Updated, missed, hit, Unique, Unique-eq, after-eq-ok, require-eq-ok, on_error-eq-ok,
  IsOrder,
}
use kd_server.Json.{Json}
use kd_server.Time.{Time, before}
use kd_server.Tenant.{ObjectId, not_configured}
use kd_server.Ingest.{RawRecord}
use kd_server.Asset.Store.{or_kept}
use kd_server.Format.{ℤ, pos, negsuc}

pub record Person : Type 0 where
  pub id : ObjectId
  pub tenant_id : Text
  pub person_id : Text
  pub national_id : Text
  pub primary_email : Text
  pub primary_phone : Text
  pub attributes : Json
  pub created_at : Time
  pub updated_at : Time

pub record Link : Type 0 where
  pub id : ObjectId
  pub tenant_id : Text
  pub person_id : Text
  pub source : Text
  pub external_id : Text
  pub payload : Json
  pub created_at : Time
  pub updated_at : Time

pub record PersonIdentifiers : Type 0 where
  pub national_id : Text
  pub email : Text
  pub phone : Text

abbrev pub raw_status_pending : Text
raw_status_pending = codes "pending"

abbrev pub raw_status_resolved : Text
raw_status_resolved = codes "resolved"

abbrev pub raw_status_needs_review : Text
raw_status_needs_review = codes "needs_review"

-- One part of the `$or`: an identifier that is given, and the person's.
abbrev pub by_key : Text → Text → Bool
by_key wanted value = not (is_empty wanted) && same value wanted

-- `len(filters) == 0`
unfoldable pub is_anonymous : PersonIdentifiers → Bool
is_anonymous i = is_empty i.national_id && is_empty i.email && is_empty i.phone

-- The filter of `FindPersonByIdentifiers`.
unfoldable pub shares_identifier : Text → PersonIdentifiers → Person → Bool
shares_identifier tenant i p =
    same p.tenant_id tenant
    && (by_key i.national_id p.national_id
        || by_key i.email p.primary_email
        || by_key i.phone p.primary_phone)

-- A field that is set where the new value is not blank.
abbrev pub or_old : Text → Text → Text
or_old new old = if is_blank new then old else new

-- The `$set` of `UpdatePersonIdentifiers`.
unfoldable pub set_identifiers : PersonIdentifiers → Time → Person → Person
set_identifiers i now p = record p {
  national_id = or_old i.national_id p.national_id;
  primary_email = or_old i.email p.primary_email;
  primary_phone = or_old i.phone p.primary_phone;
  updated_at = now;
}

module _ {P : Type 0} (people : Collection P Person) where
  unfoldable pub find_person_by_identifiers : Text → PersonIdentifiers → Action P Person
  unfolding is_anonymous shares_identifier
  find_person_by_identifiers tenant i = do
    require people.configured not_configured
    require (not (is_anonymous i)) no_documents
    reading (λ e. e) (people.find_one (shares_identifier tenant i))

  unfoldable pub create_person :
      Text → PersonIdentifiers → Json → (now : Time) → (id person : ObjectId) → Action P Person
  create_person tenant i attrs now id person = do
    require people.configured not_configured
    let p : Person = record {
      id = id;
      tenant_id = tenant;
      person_id = person;
      national_id = i.national_id;
      primary_email = i.email;
      primary_phone = i.phone;
      attributes = attrs;
      created_at = now;
      updated_at = now;
    }
    writing (wrap "store: insert person") (people.insert_one p)
    pure p

  unfoldable pub update_person_identifiers :
      Text → PersonIdentifiers → (now : Time) → Action P (Unit {0})
  unfolding set_identifiers
  update_person_identifiers person_id i now = do
    require people.configured not_configured
    matched ←
        writing (wrap "store: update person identifiers")
          (people.update_one (λ p. same p.person_id person_id) (set_identifiers i now))
    pure tt

-- The filter of `UpsertLink`.
unfoldable pub is_link : Text → Text → Text → Text → Link → Bool
is_link tenant person source external l =
    same l.tenant_id tenant
    && same l.person_id person
    && same l.source source
    && same l.external_id external

module _ {L : Type 0} (links : Collection L Link) where
  unfoldable pub upsert_link :
      Text → Text → Text → Text → Json → (now : Time) → (id : ObjectId) → Action L (Unit {0})
  unfolding is_link
  upsert_link tenant person source external payload now id = do
    require links.configured not_configured
    require (not (is_blank source || is_blank external))
        (message "store: link source and external id required")
    writing (wrap "store: upsert link") (
        links.upsert_one (is_link tenant person source external)
          (λ l. record l {
            tenant_id = tenant;
            person_id = person;
            source = source;
            external_id = external;
            payload = payload;
            updated_at = now;
          })
          (record {
            id = id;
            tenant_id = tenant;
            person_id = person;
            source = source;
            external_id = external;
            payload = payload;
            created_at = now;
            updated_at = now;
          }))

-- The state of the persons, of their links and of the raw records.
pub record Registry (P L R : Type 0) : Type 0 where
  pub people : P
  pub links : L
  pub raw : R

module _ {P L R : Type 0} where
  abbrev pub on_people : {B : Type 0} → Action P B → Action (Registry P L R) B
  on_people m s = let (p, r) = m s.people in (record s { people = p }, r)

  abbrev pub on_links : {B : Type 0} → Action L B → Action (Registry P L R) B
  on_links m s = let (l, r) = m s.links in (record s { links = l }, r)

  abbrev pub on_raw : {B : Type 0} → Action R B → Action (Registry P L R) B
  on_raw m s = let (w, r) = m s.raw in (record s { raw = w }, r)

module _ {P L R : Type 0} (people : Collection P Person) (links : Collection L Link) where
  -- The cursor's reads are part of `find`.
  unfoldable pub find_person_with_links :
      (Person → Bool) → Action (Registry P L R) (Person × List Link)
  find_person_with_links filter = do
    require (people.configured && links.configured) not_configured
    person ← on_people (reading (λ e. e) (people.find_one filter))
    found ← on_links (
        reading (wrap "store: find links") (
          links.find (record {
            matches = λ k. same k.tenant_id person.tenant_id && same k.person_id person.person_id;
            precedes = λ j k. true;
            skip = 0;
            limit = 0;
          })))
    pure (person, found)

  unfoldable pub find_person_with_links_by_email :
      Text → Text → Action (Registry P L R) (Person × List Link)
  find_person_with_links_by_email tenant email =
      find_person_with_links (λ p. same p.tenant_id tenant && same p.primary_email email)

  unfoldable pub find_person_with_links_by_phone :
      Text → Text → Action (Registry P L R) (Person × List Link)
  find_person_with_links_by_phone tenant phone =
      find_person_with_links (λ p. same p.tenant_id tenant && same p.primary_phone phone)

-- `if limit <= 0 { limit = 100 }`
abbrev pub or_hundred : ℤ → ℕ
or_hundred (pos zero) = 100
or_hundred (pos (suc n)) = suc n
or_hundred (negsuc n) = 100

-- `bson.M{"$in": ids}`
abbrev pub one_of : List ObjectId → ObjectId → Bool
one_of ids id = any (same id) ids

-- The `$set` of `UpdateRawStatus`; an empty person is not set.
unfoldable pub set_status : Text → Text → Time → RawRecord → RawRecord
set_status status person now d = record d {
  status = status;
  person_id = or_kept person d.person_id;
  updated_at = now;
}

unfoldable pub is_raw : Text → List ObjectId → RawRecord → Bool
is_raw tenant ids d = same d.tenant_id tenant && one_of ids d.id

module _ {R : Type 0} (raw : Collection R RawRecord) where
  unfoldable pub list_raw_by_status : Text → Text → ℤ → Action R (List RawRecord)
  list_raw_by_status tenant status limit = do
    require raw.configured not_configured
    reading (wrap "store: list raw") (
        raw.find (record {
          matches = λ d. same d.tenant_id tenant && same d.status status;
          precedes = λ c d. not (before d.created_at c.created_at);
          skip = 0;
          limit = or_hundred limit;
        }))

  -- The update, where there is an id.
  abbrev pub mark : Text → List ObjectId → Text → Text → Time → Action R (Unit {0})
  mark tenant [] status person now = pure tt
  mark tenant (i ∷ is) status person now = do
    matched ←
        writing (wrap "store: update raw status")
          (raw.update_many (is_raw tenant (i ∷ is)) (set_status status person now))
    pure tt

  unfoldable pub update_raw_status :
      Text → List ObjectId → Text → Text → (now : Time) → Action R (Unit {0})
  unfolding is_raw set_status
  update_raw_status tenant ids status person now = do
    require raw.configured not_configured
    mark tenant ids status person now

  unfoldable pub raw_needs_review : Text → ℤ → Action R (List RawRecord)
  raw_needs_review tenant limit = list_raw_by_status tenant raw_status_needs_review limit
