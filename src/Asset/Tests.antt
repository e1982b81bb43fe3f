-- ===== src/Asset/Tests.antt =====
-- The register on concrete values.
use kd_server.Common.{
  ◌↔◌, Bool, All, ◌≤◌, ◌≡◌, refl, true, none, List, [], ◌∷◌, arith, length, keep,
}
use mathlib.Core.List.{Perm}
use kd_server.Mongo.{page}
use kd_server.Text.{codes}
use kd_server.Asset.{Asset, AssetLink, AssetHistory, AssetQueryFilter, AssetIngestResult, Register}
use kd_server.Asset.Store.{
  set_asset, asset_matches, create_asset, update_asset, get_asset_by_number, query_assets,
  create_asset_link, create_asset_history,
}
use kd_server.Mongo.Memory.{memory, memory-IsMongo}
use kd_server.Samples.{noon}
use kd_server.Time.{is_zero, before, later_than, is_digit}
use kd_server.Format.{pos, atoi, digits_value, digits, pad4, format_04d, next_int}
use kd_server.Asset.Samples.{chair_record, chair}
use kd_server.Asset.Store.Laws.{Wanted, query_assets-page}
use kd_server.Asset.Number.{matches_asset_no, asset_number, next_serial, generate_asset_number}
use kd_server.Asset.Number.Form.{matches-asset_number}
use kd_server.Asset.Number.Fresh.{Fresh, generate_asset_number-Fresh}
use kd_server.Asset.Service.{
  event, is_positive, not_positive, transfer_asset, dispose_asset, dispose_notes, FloatFormat,
}
use kd_server.Mongo.Laws.{Unique}
use kd_server.Asset.Service.Laws.{
  same_number, Changed, transfer_asset-Changed, dispose_asset-Changed,
}
use kd_server.Asset.Ingest.{
  Clock, valid_category, validate_asset_record, with_defaults, new_asset, record_creation,
  ingest_unit, ingest_units, ingest_record, ingest_records, ingest_assets,
}
use kd_server.Asset.Ingest.Laws.{entries, counted, Consistent, ingest_assets-counted}
use kd_server.Asset.Ingest.Stored.{Extended, Stored, ingest_assets-Stored}

code : Unit {0}
unfolding memory asset_number format_04d pad4 generate_asset_number next_serial atoi digits_value
    is_digit transfer_asset dispose_asset set_asset update_asset get_asset_by_number
    create_asset_history create_asset ingest_assets ingest_records ingest_record ingest_units
    ingest_unit with_defaults new_asset validate_asset_record valid_category not_positive is_zero
    later_than before record_creation create_asset_link query_assets asset_matches dispose_notes
    is_positive digits next_int
code = tt

instance abbrev no_cents : FloatFormat
no_cents = record { fixed2 = λ x. codes "0.00" }

abbrev clock : Clock
clock = record {
  start = noon;
  checked = λ i. noon;
  made = λ i q. record {
    asset_now = noon;
    asset_id = codes "a";
    link_now = noon;
    link_id = codes "b";
    history_now = noon;
    history_id = codes "c";
  };
}

abbrev Memory : Type 0
Memory = Register (List Asset) (List AssetLink) (List AssetHistory)

abbrev register : Memory
register = record { assets = chair ∷ []; links = []; history = [] }

abbrev ingested : Memory × AssetIngestResult
ingested =
    ingest_assets memory memory memory none (codes "acme") (codes "erp") (codes "eve") clock
      (chair_record ∷ record chair_record { office = [] } ∷ []) register

ingest_test :
    (ingested.1.asset_numbers ≡ codes "B15-2024-02-073-0008" ∷ codes "B15-2024-02-073-0009" ∷ [])
    × (length ingested.1.errors ≡ 1)
    × (length ingested.0.links ≡ 2)
unfolding code
ingest_test = (refl, refl, refl)

abbrev transferred : Memory
transferred =
    (transfer_asset memory memory (codes "acme") (codes "B15-2024-02-073-0007") (codes "room 2")
      (codes "bob") [] noon (codes "h") register).0

abbrev disposed : Memory
disposed =
    (dispose_asset memory memory (codes "acme") (codes "B15-2024-02-073-0007") (codes "broken")
      (codes "bob") 0 [] noon (codes "h") register).0

alone : Unique same_number ((memory {D = Asset}).docs register.assets)
unfolding memory
alone = (tt, tt)

matches-asset_number_example :
    matches_asset_no (asset_number (codes "B15") 2024 (codes "02") (codes "073") (pos 8)) ≡ true
matches-asset_number_example =
    matches-asset_number (codes "B15") (codes "02") (codes "073") 2024 8 refl refl refl
      (omega arith) (omega arith)

generate_asset_number-Fresh_example :
    Fresh memory memory-IsMongo
      (codes "acme")
      (codes "B15")
      (codes "02")
      (codes "073")
      2024
      (chair ∷ [])
      (codes "B15-2024-02-073-0008")
unfolding code
generate_asset_number-Fresh_example =
    generate_asset_number-Fresh memory memory-IsMongo (codes "acme") (codes "B15") (codes "02")
      (codes "073") 2024 (chair ∷ []) ((λ inside. (7, omega arith, refl)), tt) (chair ∷ [])
      (codes "B15-2024-02-073-0008") refl

transfer_asset-Changed_example :
    Changed memory memory memory-IsMongo
      (codes "acme")
      (codes "B15-2024-02-073-0007")
      register
      alone
      (λ a. record a { location = codes "room 2"; updated_at = noon })
      (λ a.
        event
          (codes "B15-2024-02-073-0007")
          (codes "acme")
          (codes "transfer")
          a.location
          (codes "room 2")
          (codes "bob")
          [])
      noon
      (codes "h")
      transferred
unfolding code
transfer_asset-Changed_example =
    transfer_asset-Changed memory memory memory-IsMongo (codes "acme")
      (codes "B15-2024-02-073-0007") register alone (codes "room 2") (codes "bob") [] noon
      (codes "h") transferred refl

dispose_asset-Changed_example :
    Changed memory memory memory-IsMongo
      (codes "acme")
      (codes "B15-2024-02-073-0007")
      register
      alone
      (λ a. record a { status = codes "disposed"; updated_at = noon })
      (λ a.
        event
          (codes "B15-2024-02-073-0007")
          (codes "acme")
          (codes "dispose")
          []
          []
          (codes "bob")
          (dispose_notes (codes "broken") 0 []))
      noon
      (codes "h")
      disposed
unfolding code
dispose_asset-Changed_example =
    dispose_asset-Changed memory memory memory-IsMongo (codes "acme") (codes "B15-2024-02-073-0007")
      register alone (codes "broken") (codes "bob") 0 [] noon (codes "h") disposed refl

ingest_assets-counted_example :
    (counted ingested.1 ≡ entries clock 0 (chair_record ∷ record chair_record { office = [] } ∷ []))
    × Consistent ingested.1
ingest_assets-counted_example =
    ingest_assets-counted memory memory memory none (codes "acme") (codes "erp") (codes "eve") clock
      (chair_record ∷ record chair_record { office = [] } ∷ []) register

ingest_assets-Stored_example :
    Extended (codes "acme") (codes "eve") (chair ∷ []) ingested.0.assets
    × All (Stored (codes "acme") (codes "eve") ingested.0.assets) ingested.1.asset_numbers
unfolding memory
ingest_assets-Stored_example =
    ingest_assets-Stored (codes "acme") (codes "eve") memory memory-IsMongo memory memory none
      (codes "erp") clock (chair_record ∷ record chair_record { office = [] } ∷ []) register

abbrev any_chair : AssetQueryFilter
any_chair = record {
  tenant_id = codes "acme";
  office = [];
  category_no = codes "02";
  type_number = [];
  status = [];
  acquisition_date_from = none;
  acquisition_date_to = none;
  limit = 20;
  offset = 0;
}

query_assets-page_example :
    (p : Asset → Bool) × ((a : Asset) → (p a ≡ true) ↔ Wanted any_chair a)
    × (1 ≡ length (keep p (chair ∷ [])))
    × ((whole : List Asset) × Perm whole (keep p (chair ∷ []))
        × (Path (List Asset) (chair ∷ []) (page 0 20 whole)))
    × All (Wanted any_chair) (chair ∷ [])
    × (1 ≤ 20 → length (chair ∷ []) ≤ 20)
    × (Path (List Asset) (chair ∷ []) (chair ∷ []))
unfolding code
query_assets-page_example =
    query_assets-page memory memory-IsMongo any_chair (chair ∷ []) (chair ∷ []) (chair ∷ []) 1 refl
