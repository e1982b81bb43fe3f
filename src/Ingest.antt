-- ===== src/Ingest.antt =====
-- The ingest of raw records: internal/services/ingest.go and `SaveBatch` of internal/store/ingest.go. The
-- ids that the driver gives to inserted records, by their place, are an argument.
pub mod Laws
mod Tests
use kd_server.Common.{
  ℕ, zero, suc, ◌+◌, ◌-◌, ◌*◌, ◌/◌, ◌%◌, ◌^◌, ◌≤◌, ◌<◌, String, ◌≡◌, refl, sym, ap, ◌∙◌, ◌≢◌, ◌↔◌,
  ◌⊎◌, inl, inr, Bool, true, false, not, ◌&&◌, ◌||◌, Option, none, some, List, [], ◌∷◌, ◌++◌, map,
  Memᴰ, arith, ltb, leb, ◌==◌, ==_iff, within, if◌then◌else◌, Bool-cases, Option-cases,
  Result-cases, length, take, drop, any, all, keep, length-append, All, All-append, All-map,
  All-mem, Result, ok, err, Error, message, about, wrap, fault, no_documents, duplicate_key,
  is_no_documents,
}
use kd_server.Text.{
  Text, codes, same, is_empty, is_blank, is_space, trim_space, Casing, to_lower, to_upper,
  has_prefix, trim_prefix, cut, same_iff, same_refl,
}
use kd_server.Mongo.{
  Action, after, ◌>>=◌, ◌>>◌, pure, raise, require, on_error, reading, writing, Query, page,
  Collection,
}
use kd_server.Mongo.Laws.{
  IsMongo, Updated, missed, hit, Unique, Unique-eq, after-eq-ok, require-eq-ok, on_error-eq-ok,
  IsOrder,
}
use kd_server.Json.{Json}
use kd_server.Time.{Time}
use kd_server.Tenant.{ObjectId}

-- A document of the sources, as `SaveBatch` writes it.
pub record Source : Type 0 where
  pub tenant_id : Text
  pub slug : Text
  pub name : Text
  pub created_at : Time
  pub updated_at : Time

-- A record as it came, to be resolved.
pub record RawRecord : Type 0 where
  pub id : ObjectId
  pub tenant_id : Text
  pub source_slug : Text
  pub payload : Json
  pub status : Text
  pub person_id : Text
  pub ingest_batch : Text
  pub created_at : Time
  pub updated_at : Time

-- `IngestSource` and `IngestCommand`; the store's `IngestBatch` has the same fields.
pub record IngestSource : Type 0 where
  pub slug : Text
  pub name : Text

pub record IngestCommand : Type 0 where
  pub source : IngestSource
  pub records : List Json

pub record IngestResult : Type 0 where
  pub created : ℕ
  pub linked : ℕ
  pub needs_review : ℕ

-- The collections that a batch is written to.
pub record Landing (P R : Type 0) : Type 0 where
  pub sources : P
  pub raw : R

abbrev pub tenant_required : Error
tenant_required = message "services: tenant required"

abbrev pub source_slug_required : Error
source_slug_required = message "services: source slug required"

abbrev pub no_records : Error
no_records = message "services: at least one record required"

abbrev pub no_items : {A : Type 0} → List A → Bool
no_items [] = true
no_items (_ ∷ _) = false

-- The documents of a batch, from the place `i` on.
unfoldable pub raw_docs :
    Text → Text → Text → (now : Time) → (ids : ℕ → ObjectId) → ℕ → List Json → List RawRecord
raw_docs tenant slug batch now ids i [] = []
raw_docs tenant slug batch now ids i (p ∷ ps) =
    record {
      id = ids i;
      tenant_id = tenant;
      source_slug = slug;
      payload = p;
      status = codes "pending";
      person_id = [];
      ingest_batch = batch;
      created_at = now;
      updated_at = now;
    }
    ∷ raw_docs tenant slug batch now ids (suc i) ps

abbrev pub is_source : Text → Text → Source → Bool
is_source tenant slug d = same d.tenant_id tenant && same d.slug slug

module _ {P R : Type 0} (sources : Collection P Source) (raw : Collection R RawRecord) where
  abbrev pub on_sources : {B : Type 0} → Action P B → Action (Landing P R) B
  on_sources m s = let (p, r) = m s.sources in (record s { sources = p }, r)

  abbrev pub on_raw : {B : Type 0} → Action R B → Action (Landing P R) B
  on_raw m s = let (p, r) = m s.raw in (record s { raw = p }, r)

  unfoldable pub save_batch :
      Text
      → IngestCommand
      → (now : Time) → (batch : Text) → (ids : ℕ → ObjectId) → Action (Landing P R) IngestResult
  unfolding raw_docs
  save_batch tenant command now batch ids = do
    require (sources.configured && raw.configured) (message "store: ingest writer not configured")
    let slug = trim_space command.source.slug
    require (not (is_empty slug)) (message "store: source slug required")
    require (not (no_items command.records)) (message "store: no records to ingest")
    let fresh : Source = record {
      tenant_id = tenant;
      slug = slug;
      name = command.source.name;
      created_at = now;
      updated_at = now;
    }
    on_sources (
        writing (wrap "store: upsert source") (
          sources.upsert_one (is_source tenant slug)
            (λ d. record d {
              tenant_id = tenant;
              slug = slug;
              name = command.source.name;
              updated_at = now;
            })
            fresh))
    on_raw (
        writing (wrap "store: insert raw records")
          (raw.insert_many (raw_docs tenant slug batch now ids 0 command.records)))
    pure (record { created = length command.records; linked = 0; needs_review = 0 })

  -- `writer` says whether the service has one.
  unfoldable pub ingest :
      (writer : Bool)
      → Text
      → IngestCommand
      → (now : Time) → (batch : Text) → (ids : ℕ → ObjectId) → Action (Landing P R) IngestResult
  ingest writer tenant command now batch ids = do
    require (not (is_blank tenant)) tenant_required
    require (not (is_blank command.source.slug)) source_slug_required
    require (not (no_items command.records)) no_records
    require writer (message "services: ingest writer not configured")
    save_batch tenant command now batch ids
