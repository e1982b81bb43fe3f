-- ===== src/Person/Resolve/Tests.antt =====
-- A run over two records that wait.
use kd_server.Person.Listing.{Listed}
use kd_server.Common.{
  ◌+◌, ◌≤◌, ◌≡◌, refl, ◌⊎◌, true, false, ◌&&◌, List, [], Memᴰ, length, all, keep, All, Result, ok,
  err, Error, is_no_documents,
}
use kd_server.Text.{codes, same, is_space, trim_space, lower_rune}
use kd_server.Json.{string_at}
use kd_server.Time.{before}
use kd_server.Ingest.{RawRecord}
use kd_server.Format.{pos}
use kd_server.Person.{
  Person, Link, PersonIdentifiers, raw_status_pending, is_anonymous, shares_identifier,
  set_identifiers, find_person_by_identifiers, create_person, update_person_identifiers, is_link,
  upsert_link, Registry, or_hundred, set_status, is_raw, list_raw_by_status, update_raw_status,
}
use kd_server.Person.Laws.{settled_at, raw_of, link_of}
use kd_server.Person.Resolve.{
  link_external_id, link_external_id, link_external_id, link_external_id, ResolveResult,
  first_non_empty, link_external_id, extract_identifiers, match_person, resolve_known,
  resolve_record, resolve_all, resolve,
}
use kd_server.Mongo.Memory.{memory, memory-IsMongo}
use kd_server.Samples.{noon, plain_casing}
use kd_server.Person.Samples.{registry, draws}
use kd_server.Person.Resolve.Kept.{Linked, nameless}
use kd_server.Person.Resolve.Laws.{resolve-counts, resolve-Linked, resolve-others}
use kd_server.Person.Resolve.Steps.{Shares, find_person_by_identifiers-answer}

code : Unit {0}
unfolding memory resolve resolve_all resolve_record resolve_known match_person link_external_id
    first_non_empty extract_identifiers string_at find_person_by_identifiers shares_identifier
    is_anonymous create_person update_person_identifiers set_identifiers upsert_link is_link
    update_raw_status is_raw set_status list_raw_by_status trim_space is_space lower_rune before
code = tt

abbrev State : Type 0
State = Registry (List Person) (List Link) (List RawRecord)

abbrev out : State × Result ResolveResult
out = resolve memory memory memory true (codes "acme") (pos 0) draws noon registry

abbrev result : ResolveResult
result = record { resolved = 1; needs_review = 1; skipped = 0 }

out_ok : out ≡ (out.0, ok result)
unfolding code
out_ok = refl

resolve-counts_example :
    (ds : List RawRecord) × ((list_raw_by_status memory
        (codes "acme")
        raw_status_pending
        (pos (or_hundred (pos 0)))
        registry.raw).1
      ≡ ok ds)
    × (result.resolved + result.needs_review ≡ length ds)
    × (result.needs_review ≡ length (keep nameless ds))
    × (result.skipped ≡ 0)
resolve-counts_example =
    resolve-counts memory memory memory memory-IsMongo memory-IsMongo memory-IsMongo true
      (codes "acme") (pos 0) draws noon registry out.0 result out_ok

resolve-Linked_example :
    (ds : List RawRecord) × Listed (codes "acme") (codes "pending") 100 registry.raw ds
    × ((list_raw_by_status memory (codes "acme") raw_status_pending (pos 100) registry.raw).1
        ≡ ok ds)
    × (all (λ d. same d.tenant_id (codes "acme") && same d.status raw_status_pending) ds ≡ true)
    × (length ds ≤ 100)
    × All
        (λ d.
          (all (settled_at (codes "acme") d.id) out.0.raw ≡ true)
          × ((nameless d ≡ true) ⊎ Linked memory memory memory (codes "acme") d out.0))
        ds
unfolding code
resolve-Linked_example =
    resolve-Linked memory memory memory memory-IsMongo memory-IsMongo memory-IsMongo true
      (codes "acme") (pos 0) draws noon registry out.0 result out_ok

resolve-others_example :
    (keep (link_of (codes "other")) out.0.links ≡ keep (link_of (codes "other")) registry.links)
    × (keep (raw_of (codes "other")) out.0.raw ≡ keep (raw_of (codes "other")) registry.raw)
unfolding code
resolve-others_example =
    resolve-others memory memory memory memory-IsMongo memory-IsMongo memory-IsMongo true
      (codes "acme") (pos 0) draws noon registry out.0 result (codes "other") out_ok refl

abbrev by_email : PersonIdentifiers
by_email = record { national_id = []; email = codes "a@x"; phone = [] }

find_person_by_identifiers-answer_example :
    ((d : Person) × ((find_person_by_identifiers memory (codes "acme") by_email registry.people).1
        ≡ ok d)
      × Memᴰ d registry.people
      × Shares (codes "acme") by_email d)
    ⊎ ((e : Error) × ((find_person_by_identifiers memory (codes "acme") by_email registry.people).1
          ≡ err e)
        × ((is_no_documents e ≡ false)
            ⊎ All (λ d. ¬ Shares (codes "acme") by_email d) registry.people))
unfolding code
find_person_by_identifiers-answer_example =
    find_person_by_identifiers-answer memory memory-IsMongo (codes "acme") by_email registry.people
