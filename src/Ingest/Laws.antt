-- ===== src/Ingest/Laws.antt =====
-- What an ingest writes.
use kd_server.Common.{
  suc, map, ℕ, ◌≡◌, refl, sym, ap, ◌∙◌, ◌⊎◌, inl, inr, Bool, true, false, not, ◌&&◌, List, [], ◌∷◌,
  ◌++◌, Memᴰ, arith, Bool-cases, length, All, Result, ok, err, Error, message, wrap,
}
use kd_server.Text.{codes, Text, is_empty, is_blank, trim_space, same_refl}
use kd_server.Json.{Json}
use kd_server.Mongo.{writing, Collection}
use kd_server.Mongo.Laws.{IsMongo, Updated, missed, hit, after-eq-ok, require-eq-ok, on_error-eq-ok}
use kd_server.Time.{Time}
use kd_server.Tenant.{ObjectId}
use mathlib.Core.Path.{subst}
use kd_server.Ingest.{
  Source, RawRecord, IngestCommand, IngestResult, Landing, tenant_required, source_slug_required,
  no_records, no_items, raw_docs, is_source, save_batch, ingest, on_sources, on_raw,
}

-- The command can be ingested for the tenant.
abbrev pub complete : Text → IngestCommand → Bool
complete tenant c =
    not (is_blank tenant) && not (is_blank c.source.slug) && not (no_items c.records)

-- The source that a batch leaves.
abbrev pub Named : Text → Text → Text → List Source → Type 0
Named tenant slug name ds =
    (d : Source) × Memᴰ d ds × (is_source tenant slug d ≡ true) × (d.name ≡ name)

-- A record as an ingest leaves it for the resolve run: of the tenant, the source and the batch, waiting,
-- without a person, made and changed at the time of the ingest.
pub record Waiting (tenant slug batch : Text) (now : Time) (d : RawRecord) : Type 0 where
  pub tenant_kept : d.tenant_id ≡ tenant
  pub source_kept : d.source_slug ≡ slug
  pub batch_kept : d.ingest_batch ≡ batch
  pub pending : d.status ≡ codes "pending"
  pub nobody : d.person_id ≡ []
  pub made : d.created_at ≡ now
  pub changed : d.updated_at ≡ now

raw_docs-Waiting :
    (tenant slug batch : Text) (now : Time) (ids : ℕ → ObjectId) (i : ℕ) (ps : List Json)
    → All (Waiting tenant slug batch now) (raw_docs tenant slug batch now ids i ps)
unfolding raw_docs
raw_docs-Waiting tenant slug batch now ids i [] = tt
raw_docs-Waiting tenant slug batch now ids i (p ∷ ps) = (
  record {
    tenant_kept = refl;
    source_kept = refl;
    batch_kept = refl;
    pending = refl;
    nobody = refl;
    made = refl;
    changed = refl;
  },
  raw_docs-Waiting tenant slug batch now ids (suc i) ps,
)

map-raw_docs :
    (tenant slug batch : Text) (now : Time) (ids : ℕ → ObjectId) (i : ℕ) (ps : List Json)
    → map (λ (d : RawRecord). d.payload) (raw_docs tenant slug batch now ids i ps) ≡ ps
unfolding raw_docs
map-raw_docs tenant slug batch now ids i [] = refl
map-raw_docs tenant slug batch now ids i (p ∷ ps) =
    λ j. p ∷ map-raw_docs tenant slug batch now ids (suc i) ps j

mem-middle : (xs : List Source) (d : Source) (ys : List Source) → Memᴰ d (xs ++ d ∷ ys)
mem-middle [] d ys = Memᴰ.head refl
mem-middle (x ∷ xs) d ys = Memᴰ.tail (mem-middle xs d ys)

upserted-Named :
    (tenant slug name : Text) (f : Source → Source) (fresh : Source) (ds ds' : List Source)
    → ((d : Source) → (is_source tenant slug (f d) ≡ true) × ((f d).name ≡ name))
    → (is_source tenant slug fresh ≡ true) × (fresh.name ≡ name)
    → Updated (is_source tenant slug) f ds 1 ds'
      ⊎ (All (λ e. is_source tenant slug e ≡ false) ds × (ds' ≡ ds ++ fresh ∷ []))
    → Named tenant slug name ds'
upserted-Named tenant slug name f fresh ds ds' good new (inl (missed _ none_hit _)) =
    absurd (omega (arith, none_hit))
upserted-Named tenant slug name f fresh ds ds' good new (inl (hit xs d ys _ _ _ after_eq)) =
    let (right, named) = good d in
    (f d, subst (λ l. Memᴰ (f d) l) (sym after_eq) (mem-middle xs (f d) ys), right, named)
upserted-Named tenant slug name f fresh ds ds' good (right, named) (inr (_, after_eq)) =
    (fresh, subst (λ l. Memᴰ fresh l) (sym after_eq) (mem-middle ds fresh []), right, named)

module _ {P R : Type 0} (sources : Collection P Source) (raw : Collection R RawRecord) where
  -- A command without a tenant, a source or records is refused, and nothing is written.
  pub ingest-incomplete :
      (writer : Bool) (tenant : Text) (c : IngestCommand) (now : Time) (batch : Text)
      (ids : ℕ → ObjectId) (s : Landing P R)
      → complete tenant c ≡ false
      → (e : Error) × (ingest sources raw writer tenant c now batch ids s ≡ (s, err e))
        × ((e ≡ tenant_required) ⊎ (e ≡ source_slug_required) ⊎ (e ≡ no_records))
  unfolding ingest
  ingest-incomplete writer tenant c now batch ids s h = elim (Bool-cases (is_blank tenant)) [
    | inl blank ↦ (tenant_required, simp (blank), inl refl)
    | inr named ↦ elim (Bool-cases (is_blank c.source.slug)) [
      | inl blank ↦ (source_slug_required, simp (named, blank), inr (inl refl))
      | inr sourced ↦ elim (Bool-cases (no_items c.records)) [
        | inl empty ↦ (no_records, simp (named, sourced, empty), inr (inr refl))
        | inr some_records ↦ absurd (ground arith)
      ]
    ]
  ]

  -- An ingest that succeeds appends exactly one record for each of its payloads, in their order, with the
  -- status "pending", of the tenant, the trimmed source and the batch, without a person and with the time
  -- of the ingest. It counts them all as created, and leaves a document of the source with its name.
  pub ingest-Landed :
      IsMongo sources
      → IsMongo raw
      → (writer : Bool) (tenant : Text) (c : IngestCommand) (now : Time) (batch : Text)
        (ids : ℕ → ObjectId) (s s' : Landing P R) (r : IngestResult)
      → ingest sources raw writer tenant c now batch ids s ≡ (s', ok r)
      → ((added : List RawRecord) × (raw.docs s'.raw ≡ raw.docs s.raw ++ added)
          × (map (λ (d : RawRecord). d.payload) added ≡ c.records)
          × All (Waiting tenant (trim_space c.source.slug) batch now) added)
        × (r.created ≡ length c.records)
        × Named tenant (trim_space c.source.slug) c.source.name (sources.docs s'.sources)
  unfolding ingest save_batch
  ingest-Landed mongo_sources mongo_raw writer tenant c now batch ids s s' r h =
      let (_, h1) = require-eq-ok (not (is_blank tenant)) tenant_required s _ h in
      let (_, h2) = require-eq-ok (not (is_blank c.source.slug)) source_slug_required s _ h1 in
      let (_, h3) = require-eq-ok (not (no_items c.records)) no_records s _ h2 in
      let (_, h4) =
        require-eq-ok writer (message "services: ingest writer not configured") s _ h3 in
      let (_, h5) =
        require-eq-ok (sources.configured && raw.configured)
          (message "store: ingest writer not configured") s _ h4 in
      let slug = trim_space c.source.slug in
      let (_, h6) =
        require-eq-ok (not (is_empty slug)) (message "store: source slug required") s _ h5 in
      let (_, h7) =
        require-eq-ok (not (no_items c.records)) (message "store: no records to ingest") s _ h6 in
      let fresh : Source = record {
        tenant_id = tenant;
        slug = slug;
        name = c.source.name;
        created_at = now;
        updated_at = now;
      } in
      let renew : Source → Source =
        λ d. record d { tenant_id = tenant; slug = slug; name = c.source.name; updated_at = now } in
      let docs : List RawRecord = raw_docs tenant slug batch now ids 0 c.records in
      let one : Landing P R × Result (Unit {0}) =
        on_sources sources raw
          (writing (wrap "store: upsert source")
            (sources.upsert_one (is_source tenant slug) renew fresh))
          s in
      let (_, upserted, h8) = after-eq-ok one _ h7 in
      let two : Landing P R × Result (Unit {0}) =
        on_raw sources raw (writing (wrap "store: insert raw records") (raw.insert_many docs))
          one.0 in
      let (_, inserted, h9) = after-eq-ok two _ h8 in
      let state : two.0 ≡ s' = ap (λ (x : Landing P R × Result IngestResult). x.0) h9 in
      let answer : Path (Result IngestResult)
          (ok (record { created = length c.records; linked = 0; needs_review = 0 })) (ok r) =
        ap (λ (x : Landing P R × Result IngestResult). x.1) h9 in
      let result : record { created = length c.records; linked = 0; needs_review = 0 } ≡ r =
        cc answer in
      let itself : is_source tenant slug fresh ≡ true = simp (same_refl) in
      let landed : raw.docs two.0.raw ≡ raw.docs s.raw ++ docs =
        mongo_raw.insert_many_done docs s.raw
          (on_error-eq-ok (wrap "store: insert raw records") _ inserted) in
      let named : Named tenant slug c.source.name (sources.docs two.0.sources) =
        upserted-Named tenant slug c.source.name renew fresh (sources.docs s.sources)
          (sources.docs two.0.sources) (λ d. (itself, refl)) (itself, refl)
          (mongo_sources.upsert_one_done _ renew fresh s.sources
            (on_error-eq-ok (wrap "store: upsert source") _ upserted)) in
      (
        (
          docs,
          ap (λ (x : Landing P R). raw.docs x.raw) (sym state) ∙ landed,
          map-raw_docs tenant slug batch now ids 0 c.records,
          raw_docs-Waiting tenant slug batch now ids 0 c.records,
        ),
        ap (λ (x : IngestResult). x.created) (sym result),
        subst (λ (x : Landing P R). Named tenant slug c.source.name (sources.docs x.sources)) state
            named,
      )
