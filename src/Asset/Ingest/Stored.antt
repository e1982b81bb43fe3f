-- ===== src/Asset/Ingest/Stored.antt =====
-- What an ingest stores.
use kd_server.Common.{
  ℕ, zero, suc, ◌≡◌, refl, sym, ap, ◌∙◌, inl, inr, Option, List, [], ◌∷◌, ◌++◌, Memᴰ, arith,
  Bool-cases, All, All-append, All-map, Result, ok, err,
}
use kd_server.Text.{Text, codes}
use kd_server.Mongo.{Collection}
use kd_server.Mongo.Laws.{IsMongo}
use kd_server.Asset.{
  Asset, AssetLink, AssetHistory, AssetIngestRecord, AssetIngestError, AssetIngestResult, Register,
}
use kd_server.Asset.Store.{or_new_id, or_now, create_asset}
use kd_server.Tenant.{ObjectId}
use kd_server.Time.{Time}
use kd_server.Asset.Number.{generate_asset_number}
use kd_server.Classification.{ClassificationService}
use kd_server.Asset.Ingest.{
  Clock, validate_asset_record, with_defaults, year_of, units, new_asset, record_creation,
  after_create, after_number, ingest_unit, ingest_units, ingest_record, ingest_records,
  ingest_assets,
}
use mathlib.Core.Path.{subst, subst₂}
use mathlib.Core.List.{append-nil, append_assoc}

module _ (tenant created_by : Text) where
  abbrev Imported : Asset → Type 0
  Imported a = (a.tenant_id ≡ tenant) × (a.status ≡ codes "active") × (a.created_by ≡ created_by)

  -- All documents stay as they are, and the new ones are active assets of the tenant.
  abbrev pub Extended : List Asset → List Asset → Type 0
  Extended ds ds' = (new : List Asset) × (ds' ≡ ds ++ new) × All Imported new

  -- An asset of the tenant with the number is stored.
  abbrev pub Stored : List Asset → Text → Type 0
  Stored ds n = (a : Asset) × Memᴰ a ds × (a.asset_no ≡ n) × Imported a

  Extended-refl : (ds : List Asset) → Extended ds ds
  Extended-refl ds = ([], sym (append-nil ds), tt)

  Extended-trans : (ds es fs : List Asset) → Extended ds es → Extended es fs → Extended ds fs
  Extended-trans ds es fs (new, e, h) (more, f, k) = (
    new ++ more,
    f ∙ ap (λ x. x ++ more) e ∙ append_assoc ds new more,
    All-append Imported new more h k,
  )

  mem-left : (a : Asset) (xs ys : List Asset) → Memᴰ a xs → Memᴰ a (xs ++ ys)
  mem-left a [] ys m = elim m [ ]
  mem-left a (x ∷ xs) ys (Memᴰ.head q) = Memᴰ.head q
  mem-left a (x ∷ xs) ys (Memᴰ.tail m) = Memᴰ.tail (mem-left a xs ys m)

  mem-last : (a : Asset) (xs : List Asset) → Memᴰ a (xs ++ a ∷ [])
  mem-last a [] = Memᴰ.head refl
  mem-last a (x ∷ xs) = Memᴰ.tail (mem-last a xs)

  Stored-Extended : (ds es : List Asset) → Extended ds es → (n : Text) → Stored ds n → Stored es n
  Stored-Extended ds es (new, e, _) n (a, m, same_no, h) =
      (a, subst (λ l. Memᴰ a l) (sym e) (mem-left a ds new m), same_no, h)

  module _ {A L H : Type 0} (assets : Collection A Asset) (mongo : IsMongo assets)
      (links : Collection L AssetLink) (history : Collection H AssetHistory)
      (cs : Option ClassificationService) (source : Text) (clock : Clock) where
    -- The assets only grow, and if the numbers so far are stored, those after the step are.
    abbrev Step : A → AssetIngestResult → A → AssetIngestResult → Type 0
    Step s acc s' acc' =
        Extended (assets.docs s) (assets.docs s')
        × (All (Stored (assets.docs s)) acc.asset_numbers
            → All (Stored (assets.docs s')) acc'.asset_numbers)

    Step-trans :
        (s t u : A) (a b c : AssetIngestResult) → Step s a t b → Step t b u c → Step s a u c
    Step-trans s t u a b c (e, f) (g, h) =
        (Extended-trans (assets.docs s) (assets.docs t) (assets.docs u) e g, λ x. h (f x))

    generate-state :
        (office category_no type_number : Text) (year : ℕ) (s : A)
        → (generate_asset_number assets tenant office category_no type_number year s).0 ≡ s
    unfolding generate_asset_number
    generate-state office category_no type_number year s = ground arith

    -- What the store makes of a new asset.
    abbrev stamped : Asset → Time → ObjectId → Asset
    stamped a now id = record a {
      id = or_new_id a.id id;
      created_at = or_now a.created_at now;
      updated_at = now;
    }

    create-Extended :
        (a : Asset) (now : Time) (id : ObjectId) (s : A)
        → Imported a
        → Extended (assets.docs s) (assets.docs (create_asset assets a now id s).0)
    unfolding create_asset
    create-Extended a now id s h = elim (Bool-cases assets.configured) [
      | inl on ↦ elim (mongo.insert_one_atomic (stamped a now id) s) [
        | inl as_before ↦ simp (on) ([], as_before ∙ sym (append-nil (assets.docs s)), tt)
        | inr added ↦ simp (on) (stamped a now id ∷ [], added, (h, tt))
      ]
      | inr off ↦ simp (off) (Extended-refl (assets.docs s))
    ]

    create-Stored :
        (a : Asset) (now : Time) (id : ObjectId) (s : A)
        → Imported a
        → (create_asset assets a now id s).1 ≡ ok tt
        → Stored (assets.docs (create_asset assets a now id s).0) a.asset_no
    unfolding create_asset
    create-Stored a now id s h done = elim (Bool-cases assets.configured) [
      | inl on ↦
          let inserted : (assets.insert_one (stamped a now id) s).1 ≡ ok tt = ground arith in
          simp (on) (
            stamped a now id,
            subst (λ l. Memᴰ (stamped a now id) l)
                (sym (mongo.insert_one_done (stamped a now id) s inserted))
                (mem-last (stamped a now id) (assets.docs s)),
            refl,
            h,
          )
      | inr off ↦ absurd (ground arith)
    ]

    create-Step :
        (i q : ℕ) (office asset_no : Text) (a : Asset) (now : Time) (id : ObjectId) (t : A)
        (s : Register A L H) (out : A × Result (Unit {0})) (acc : AssetIngestResult)
        → Imported a
        → a.asset_no ≡ asset_no
        → out ≡ create_asset assets a now id t
        → Step t acc
            (after_create assets links history cs tenant source created_by clock i q office asset_no
              s out acc).0.assets
            (after_create assets links history cs tenant source created_by clock i q office asset_no
              s out acc).1
    unfolding record_creation
    create-Step i q office asset_no a now id t s (t', ok u) acc h same_no made =
        let state : t' ≡ (create_asset assets a now id t).0 =
          ap (λ (x : A × Result (Unit {0})). x.0) made in
        let good : (create_asset assets a now id t).1 ≡ ok tt =
          sym (ap (λ (x : A × Result (Unit {0})). x.1) made) in
        let grown : Extended (assets.docs t) (assets.docs t') =
          subst (λ x. Extended (assets.docs t) (assets.docs x)) (sym state)
            (create-Extended a now id t h) in
        let there : Stored (assets.docs t') asset_no =
          subst₂ (λ x n. Stored (assets.docs x) n) (sym state) same_no
            (create-Stored a now id t h good) in
        (
          grown,
          λ before.
              All-append _ acc.asset_numbers (asset_no ∷ [])
                (All-map (Stored-Extended (assets.docs t) (assets.docs t') grown) acc.asset_numbers
                  before)
                (there, tt),
        )
    create-Step i q office asset_no a now id t s (t', err e) acc h same_no made =
        let state : t' ≡ (create_asset assets a now id t).0 =
          ap (λ (x : A × Result (Unit {0})). x.0) made in
        let grown : Extended (assets.docs t) (assets.docs t') =
          subst (λ x. Extended (assets.docs t) (assets.docs x)) (sym state)
            (create-Extended a now id t h) in
        (grown, All-map (Stored-Extended (assets.docs t) (assets.docs t') grown) acc.asset_numbers)

    number-Step :
        (i q year : ℕ) (r : AssetIngestRecord) (t : A) (s : Register A L H) (out : A × Result Text)
        (acc : AssetIngestResult)
        → out.0 ≡ t
        → Step t acc
            (after_number assets links history cs tenant source created_by clock i q year r s out
              acc).0.assets
            (after_number assets links history cs tenant source created_by clock i q year r s out
              acc).1
    unfolding new_asset
    number-Step i q year r t s (t', ok asset_no) acc same_state =
        let c = clock.made i q in
        let a : Asset = new_asset cs tenant created_by year r asset_no in
        subst
          (λ x.
            Step x acc
              (after_number assets links history cs tenant source created_by clock i q year r s
                (t', ok asset_no) acc).0.assets
              (after_number assets links history cs tenant source created_by clock i q year r s
                (t', ok asset_no) acc).1)
          same_state
          (create-Step i q r.office asset_no a c.asset_now c.asset_id t' s
            (create_asset assets a c.asset_now c.asset_id t') acc (refl, refl, refl) refl refl)
    number-Step i q year r t s (t', err e) acc same_state =
        let alike : Extended (assets.docs t) (assets.docs t') =
          subst (λ x. Extended (assets.docs t) (assets.docs x)) (sym same_state)
            (Extended-refl (assets.docs t)) in
        (alike, All-map (Stored-Extended (assets.docs t) (assets.docs t') alike) acc.asset_numbers)

    units-Step :
        (i : ℕ) (r : AssetIngestRecord) (year left q : ℕ) (s : Register A L H)
        (acc : AssetIngestResult)
        → Step s.assets acc
            (ingest_units assets links history cs tenant source created_by clock i r year left q s
              acc).0.assets
            (ingest_units assets links history cs tenant source created_by clock i r year left q s
              acc).1
    unfolding ingest_units ingest_unit
    units-Step i r year zero q s acc = (Extended-refl (assets.docs s.assets), λ h. h)
    units-Step i r year (suc left) q s acc =
        let out : Register A L H × AssetIngestResult =
          ingest_unit assets links history cs tenant source created_by clock i r year q s acc in
        let end : Register A L H × AssetIngestResult =
          ingest_units assets links history cs tenant source created_by clock i r year left (suc q)
            out.0 out.1 in
        Step-trans s.assets out.0.assets end.0.assets acc out.1 end.1
          (number-Step i q year r s.assets s
            (generate_asset_number assets tenant r.office r.category_no r.type_number year s.assets)
            acc (generate-state r.office r.category_no r.type_number year s.assets))
          (units-Step i r year left (suc q) out.0 out.1)

    record-Step :
        (i : ℕ) (r : AssetIngestRecord) (es : List AssetIngestError) (s : Register A L H)
        (acc : AssetIngestResult)
        → Step s.assets acc
            (ingest_record assets links history cs tenant source created_by clock i r es s
              acc).0.assets
            (ingest_record assets links history cs tenant source created_by clock i r es s acc).1
    unfolding ingest_record
    record-Step i r [] s acc =
        units-Step i (with_defaults r) (year_of clock.start.year r) (units r) 0 s acc
    record-Step i r (e ∷ es) s acc = (Extended-refl (assets.docs s.assets), λ h. h)

    records-Step :
        (i : ℕ) (rs : List AssetIngestRecord) (s : Register A L H) (acc : AssetIngestResult)
        → Step s.assets acc
            (ingest_records assets links history cs tenant source created_by clock i rs s
              acc).0.assets
            (ingest_records assets links history cs tenant source created_by clock i rs s acc).1
    unfolding ingest_records
    records-Step i [] s acc = (Extended-refl (assets.docs s.assets), λ h. h)
    records-Step i (r ∷ rs) s acc =
        let es = validate_asset_record (clock.checked i) i r in
        let out : Register A L H × AssetIngestResult =
          ingest_record assets links history cs tenant source created_by clock i r es s acc in
        let end : Register A L H × AssetIngestResult =
          ingest_records assets links history cs tenant source created_by clock (suc i) rs out.0
            out.1 in
        Step-trans s.assets out.0.assets end.0.assets acc out.1 end.1 (record-Step i r es s acc)
          (records-Step (suc i) rs out.0 out.1)

    -- An ingest only appends assets, all of them active assets of the tenant by the given user; and each
    -- number that it returns is the number of one that is stored.
    pub ingest_assets-Stored :
        (records : List AssetIngestRecord) (s : Register A L H)
        → Extended (assets.docs s.assets) (
            assets.docs
              (ingest_assets assets links history cs tenant source created_by clock records
                s).0.assets)
          × All
              (Stored (
                assets.docs
                  (ingest_assets assets links history cs tenant source created_by clock records
                    s).0.assets))
              (ingest_assets assets links history cs tenant source created_by clock records
                s).1.asset_numbers
    unfolding ingest_assets
    ingest_assets-Stored records s =
        let (grown, stored) =
          records-Step 0 records s (record { created = 0; asset_numbers = []; errors = [] }) in
        (grown, stored tt)
