-- ===== src/Asset/Ingest/Laws.antt =====
-- What an ingest reports.
use kd_server.Common.{
  ℕ, zero, suc, ◌+◌, ◌≡◌, refl, Option, List, [], ◌∷◌, arith, length, length-append, Result, ok,
  err, wrap,
}
use kd_server.Text.{Text}
use kd_server.Mongo.{Collection}
use kd_server.Asset.{
  Asset, AssetLink, AssetHistory, AssetIngestRecord, AssetIngestError, AssetIngestResult, Register,
}
use kd_server.Asset.Store.{create_asset}
use kd_server.Asset.Number.{generate_asset_number}
use kd_server.Asset.Ingest.{
  Clock, validate_asset_record, with_defaults, year_of, units, new_asset, after_create,
  after_number, ingest_unit, ingest_units, ingest_record, ingest_records, ingest_assets,
}
use kd_server.Classification.{ClassificationService}

-- How many entries of the answer a record accounts for: its units where it is valid, and else its errors.
abbrev pub entries : Clock → ℕ → List AssetIngestRecord → ℕ
entries clock i [] = 0
entries clock i (r ∷ rs) =
    elim (validate_asset_record (clock.checked i) i r) [ [] ↦ units r | e ∷ es ↦ length (e ∷ es) ]
    + entries clock (suc i) rs

-- What is counted so far.
abbrev pub counted : AssetIngestResult → ℕ
counted acc = acc.created + length acc.errors

abbrev pub Consistent : AssetIngestResult → Type 0
Consistent acc = acc.created ≡ length acc.asset_numbers

module _ {A L H : Type 0} (assets : Collection A Asset) (links : Collection L AssetLink)
    (history : Collection H AssetHistory) (cs : Option ClassificationService)
    (tenant source created_by : Text) (clock : Clock) where
  -- One more entry, and as many numbers as were created.
  abbrev Counts : ℕ → AssetIngestResult → AssetIngestResult → Type 0
  Counts n acc acc' = (counted acc' ≡ counted acc + n) × Consistent acc'

  create-Counts :
      (i q : ℕ) (office asset_no : Text) (s : Register A L H) (out : A × Result (Unit {0}))
      (acc : AssetIngestResult)
      → Consistent acc
      → Counts 1 acc
          (after_create assets links history cs tenant source created_by clock i q office asset_no s
            out acc).1
  create-Counts i q office asset_no s (a, ok _) acc h =
      (omega arith, omega (arith, length-append acc.asset_numbers (asset_no ∷ [])))
  create-Counts i q office asset_no s (a, err e) acc h = (
    omega (
      arith,
      length-append acc.errors (
          record { record_index = i; field = "asset"; message = wrap "failed to create asset" e }
          ∷ []),
    ),
    h,
  )

  number-Counts :
      (i q year : ℕ) (r : AssetIngestRecord) (s : Register A L H) (out : A × Result Text)
      (acc : AssetIngestResult)
      → Consistent acc
      → Counts 1 acc
          (after_number assets links history cs tenant source created_by clock i q year r s out
            acc).1
  number-Counts i q year r s (a, ok asset_no) acc h =
      let t = clock.made i q in
      create-Counts i q r.office asset_no s
        (create_asset assets (new_asset cs tenant created_by year r asset_no) t.asset_now t.asset_id
          a)
        acc h
  number-Counts i q year r s (a, err e) acc h = (
    omega (
      arith,
      length-append acc.errors (
          record {
            record_index = i;
            field = "assetNo";
            message = wrap "failed to generate asset number" e;
          }
          ∷ []),
    ),
    h,
  )

  units-Counts :
      (i : ℕ) (r : AssetIngestRecord) (year left q : ℕ) (s : Register A L H)
      (acc : AssetIngestResult)
      → Consistent acc
      → Counts left acc
          (ingest_units assets links history cs tenant source created_by clock i r year left q s
            acc).1
  unfolding ingest_units ingest_unit
  units-Counts i r year zero q s acc h = (omega arith, h)
  units-Counts i r year (suc left) q s acc h =
      let out : Register A L H × AssetIngestResult =
        ingest_unit assets links history cs tenant source created_by clock i r year q s acc in
      let (one, good) =
        number-Counts i q year r s
          (generate_asset_number assets tenant r.office r.category_no r.type_number year s.assets)
          acc h in
      let (rest, fine) = units-Counts i r year left (suc q) out.0 out.1 good in
      (omega (arith, one, rest), fine)

  record-Counts :
      (i : ℕ) (r : AssetIngestRecord) (es : List AssetIngestError) (s : Register A L H)
      (acc : AssetIngestResult)
      → Consistent acc
      → Counts
          (elim es [ [] ↦ units r | e ∷ fs ↦ length (e ∷ fs) ])
          acc
          (ingest_record assets links history cs tenant source created_by clock i r es s acc).1
  unfolding ingest_record with_defaults
  record-Counts i r [] s acc h =
      units-Counts i (with_defaults r) (year_of clock.start.year r) (units r) 0 s acc h
  record-Counts i r (e ∷ es) s acc h = (omega (arith, length-append acc.errors (e ∷ es)), h)

  records-Counts :
      (i : ℕ) (rs : List AssetIngestRecord) (s : Register A L H) (acc : AssetIngestResult)
      → Consistent acc
      → Counts
          (entries clock i rs)
          acc
          (ingest_records assets links history cs tenant source created_by clock i rs s acc).1
  unfolding ingest_records
  records-Counts i [] s acc h = (omega arith, h)
  records-Counts i (r ∷ rs) s acc h =
      let es = validate_asset_record (clock.checked i) i r in
      let out : Register A L H × AssetIngestResult =
        ingest_record assets links history cs tenant source created_by clock i r es s acc in
      let (one, good) = record-Counts i r es s acc h in
      let (rest, fine) = records-Counts (suc i) rs out.0 out.1 good in
      (omega (arith, one, rest), fine)

  -- Nothing is lost: the created assets and the errors are together as many as the units of the valid
  -- records and the validation errors of the others, and there is one number for each created asset.
  pub ingest_assets-counted :
      (records : List AssetIngestRecord) (s : Register A L H)
      → (counted (ingest_assets assets links history cs tenant source created_by clock records s).1
          ≡ entries clock 0 records)
        × Consistent
            (ingest_assets assets links history cs tenant source created_by clock records s).1
  unfolding ingest_assets
  ingest_assets-counted records s =
      let (all_entries, fine) =
        records-Counts 0 records s (record { created = 0; asset_numbers = []; errors = [] }) refl in
      (omega (arith, all_entries), fine)
