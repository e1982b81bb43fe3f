-- ===== src/Http/Asset/Handlers/Dates.antt =====
-- The ingest handler reads the dates of all records before it writes any of them.
use kd_server.Common.{
  map, sym, ◌∙◌, Result, suc, ◌≡◌, refl, ap, inl, inr, Bool, true, false, ◌&&◌, ◌||◌, Option, none,
  some, List, [], ◌∷◌, arith, Bool-cases, Option-cases, Result-cases, length, all, ok, err, Error,
  message,
}
use kd_server.Text.{Text, codes, is_empty, is_blank}
use kd_server.Asset.{Asset, AssetLink, AssetHistory, AssetIngestRecord, Register}
use kd_server.Time.{Time, parse_date}
use kd_server.Mongo.{Collection}
use kd_server.Classification.{ClassificationService}
use kd_server.Asset.Ingest.{Clock, ingest_assets}
use kd_server.Http.{failed_with, done}
use kd_server.Http.Asset.{
  AssetRecordRequest, AssetIngestRequest, use_commence_date_of, service_record, service_records,
  in_tenant,
}
use kd_server.Http.Asset.Handlers.{asset_ingest_handler}

abbrev is_date : Text → Bool
is_date s = elim (parse_date s) [ none ↦ false | some _ ↦ true ]

-- The dates of a record of the request are dates; the second one may be missing.
abbrev pub has_dates : AssetRecordRequest → Bool
has_dates r =
    is_date r.acquisition_date && (is_empty r.use_commence_date || is_date r.use_commence_date)

commence :
    (s : Text)
    → ((is_empty s || is_date s) ≡ true → (t : Option Time) × (use_commence_date_of s ≡ ok t))
      × ((is_empty s || is_date s) ≡ false → (e : Error) × (use_commence_date_of s ≡ err e))
commence [] = ((λ h. (none, refl)), (λ h. cc))
commence (c ∷ s) = elim (Option-cases (parse_date (c ∷ s))) [
  | inl missing ↦ (
    (λ h. absurd (ground arith)),
    (λ h. (message "invalid useCommenceDate format, use ISO 8601 (YYYY-MM-DD)", simp (missing))),
  )
  | inr (t, found) ↦ ((λ h. (some t, simp (found))), (λ h. absurd (ground arith)))
]

abbrev date_of : Result AssetIngestRecord → Option Time
date_of (ok x) = some x.acquisition_date
date_of (err e) = none

one_record :
    (r : AssetRecordRequest)
    → (has_dates r ≡ true
        → (x : AssetIngestRecord) × (service_record r ≡ ok x)
          × (some x.acquisition_date ≡ parse_date r.acquisition_date))
      × (has_dates r ≡ false → (e : Error) × (service_record r ≡ err e))
unfolding service_record
one_record r = elim (Option-cases (parse_date r.acquisition_date)) [
  | inl missing ↦ (
    (λ h. absurd (ground arith)),
    (λ h. (message "invalid acquisitionDate format, use ISO 8601 (YYYY-MM-DD)", simp (missing))),
  )
  | inr (t, found) ↦ (
    (λ h.
        let (u, commenced) = (commence r.use_commence_date).0 (ground arith) in
        elim (Result-cases (service_record r)) [
          | inl (x, converted) ↦
              let dated : date_of (service_record r) ≡ some t = simp (found, commenced) in
              let same_date : Path (Option Time) (some x.acquisition_date) (some t) =
                rw converted at dated in
              (x, converted, same_date ∙ sym found)
          | inr (e, refused) ↦ absurd (ground arith)
        ]),
    (λ h.
        let (e, bad_date) = (commence r.use_commence_date).1 (ground arith) in
        (e, simp (found, bad_date))),
  )
]

all_records :
    (rs : List AssetRecordRequest)
    → (all has_dates rs ≡ true
        → (xs : List AssetIngestRecord) × (service_records rs ≡ ok xs)
          × (length xs ≡ length rs)
          × (map (λ (x : AssetIngestRecord). some x.acquisition_date) xs
              ≡ map (λ (r : AssetRecordRequest). parse_date r.acquisition_date) rs))
      × (all has_dates rs ≡ false → (e : Error) × (service_records rs ≡ err e))
unfolding service_records
all_records [] = ((λ h. ([], refl, refl, refl)), (λ h. cc))
all_records (r ∷ rs) = elim (Bool-cases (has_dates r)) [
  | inl good ↦
      let (x, converted, dated) = (one_record r).0 good in
      (
        (λ h.
            let (xs, rest, same_length, all_dated) = (all_records rs).0 (ground arith) in
            (x ∷ xs, simp (converted, rest), ap suc same_length, λ i. dated i ∷ all_dated i)),
        (λ h.
            let (e, bad_date) = (all_records rs).1 (ground arith) in
            (e, simp (converted, bad_date))),
      )
  | inr bad ↦
      let (e, bad_date) = (one_record r).1 bad in
      ((λ h. absurd (ground arith)), (λ h. (e, simp (bad_date))))
]

module _ {A L H : Type 0} (assets : Collection A Asset) (links : Collection L AssetLink)
    (history : Collection H AssetHistory) (cs : Option ClassificationService) (clock : Clock) where
  -- For a tenant that is not blank: where the acquisition date of each record is a date, and its commence
  -- date is one or missing, the request is answered by the result of the ingest of as many records, with
  -- these acquisition dates. Where an acquisition date or a commence date is no date, it is answered by an
  -- error 400, and nothing of it is written. The dates of the approvals do not count.
  pub asset_ingest_handler-dates :
      (tenant : Text) (q : AssetIngestRequest) (s : Register A L H)
      → is_blank tenant ≡ false
      → (all has_dates q.records ≡ true
          → (xs : List AssetIngestRecord) × (length xs ≡ length q.records)
            × (map (λ (x : AssetIngestRecord). some x.acquisition_date) xs
                ≡ map (λ (r : AssetRecordRequest). parse_date r.acquisition_date) q.records)
            × (asset_ingest_handler assets links history cs clock (some tenant) (some q) s ≡ (
              (ingest_assets assets links history cs tenant q.source_slug
                  (codes "system")
                  clock
                  xs
                  s).0,
              done 200
                  (ingest_assets assets links history cs tenant q.source_slug
                    (codes "system")
                    clock
                    xs
                    s).1,
            )))
        × (all has_dates q.records ≡ false
            → (e : Error) × (asset_ingest_handler assets links history cs clock
                  (some tenant)
                  (some q)
                  s
                ≡ (s, failed_with 400 e)))
  unfolding asset_ingest_handler in_tenant
  asset_ingest_handler-dates tenant q s named = (
    (λ h.
        let (xs, converted, same_length, dated) = (all_records q.records).0 h in
        (xs, same_length, dated, simp (named, converted))),
    (λ h. let (e, bad_date) = (all_records q.records).1 h in (e, simp (named, bad_date))),
  )
