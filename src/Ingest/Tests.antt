-- ===== src/Ingest/Tests.antt =====
-- A batch of two records.
use kd_server.Common.{map, All, ℕ, ◌≡◌, refl, ◌⊎◌, true, List, [], ◌∷◌, length, Result, err, Error}
use kd_server.Text.{Text, codes, is_space, trim_space}
use kd_server.Mongo.Memory.{memory, memory-IsMongo}
use kd_server.Samples.{noon}
use kd_server.Json.{text}
use kd_server.Ingest.{
  Source, RawRecord, IngestCommand, IngestResult, Landing, tenant_required, source_slug_required,
  no_records, raw_docs, save_batch, ingest,
}
use kd_server.Ingest.Laws.{Named, Waiting, ingest-incomplete, ingest-Landed}

code : Unit {0}
unfolding memory ingest save_batch raw_docs trim_space is_space
code = tt

abbrev batch : IngestCommand
batch = record {
  source = record { slug = codes " hr "; name = codes "HR" };
  records = ((codes "id", text (codes "1")) ∷ []) ∷ [] ∷ [];
}

abbrev ids : ℕ → Text
ids i = codes "r"

abbrev empty : Landing (List Source) (List RawRecord)
empty = record { sources = []; raw = [] }

abbrev out : Landing (List Source) (List RawRecord) × Result IngestResult
out = ingest memory memory true (codes "acme") batch noon (codes "b") ids empty

abbrev counts : IngestResult
counts = record { created = 2; linked = 0; needs_review = 0 }

ingest-Landed_example :
    ((added : List RawRecord) × (out.0.raw ≡ added)
      × (map (λ (d : RawRecord). d.payload) added ≡ batch.records)
      × All (Waiting (codes "acme") (codes "hr") (codes "b") noon) added)
    × (counts.created ≡ length batch.records)
    × Named (codes "acme") (trim_space batch.source.slug) (codes "HR") out.0.sources
unfolding code
ingest-Landed_example =
    ingest-Landed memory memory memory-IsMongo memory-IsMongo true (codes "acme") batch noon
      (codes "b") ids empty out.0 counts refl

ingest-incomplete_example :
    (e : Error) × (ingest memory memory true (codes " ") batch noon (codes "b") ids empty
      ≡ (empty, err e))
    × ((e ≡ tenant_required) ⊎ (e ≡ source_slug_required) ⊎ (e ≡ no_records))
unfolding code
ingest-incomplete_example =
    ingest-incomplete memory memory true (codes " ") batch noon (codes "b") ids empty refl
