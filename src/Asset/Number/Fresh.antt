-- ===== src/Asset/Number/Fresh.antt =====
-- The serials of the generated numbers.
use kd_server.Common.{
  ℕ, suc, ◌≤◌, ◌<◌, ◌≡◌, refl, sym, ap, ◌∙◌, ◌≢◌, ◌⊎◌, inl, inr, Bool, true, false, some, List, [],
  ◌∷◌, arith, ◌==◌, ==_iff, Bool-cases, length, keep, All, All-map, All-mem, Result, ok, err,
  message, about, wrap, fault, no_documents, duplicate_key,
}
use kd_server.Text.{Text, same, same_iff, text_leb}
use kd_server.Mongo.{on_error, Query, Collection}
use kd_server.Mongo.Laws.{IsMongo, after-eq-ok, require-eq-ok, on_error-eq-ok, IsOrder}
use kd_server.Asset.{Asset}
use kd_server.Format.{ℤ, pos, atoi, pad4, next_int}
use kd_server.Asset.Store.{nil_store}
use mathlib.Core.Path.{ap₂}
use kd_server.Asset.Number.{asset_number, in_series, next_serial, generate_asset_number}
use kd_server.Format.Laws.{atoi-pad4, pad4_le}

-- Stored serials have four digits.
abbrev pub Padded : Asset → Type 0
Padded a = (n : ℕ) × (n < 10000) × (a.serial_increment ≡ pad4 n)

abbrev serial_order : Asset → Asset → Bool
serial_order a b = text_leb b.serial_increment a.serial_increment

text_leb_total : (s t : Text) → (text_leb s t ≡ true) ⊎ (text_leb t s ≡ true)
text_leb_total [] t = inl refl
text_leb_total (c ∷ s) [] = inr refl
text_leb_total (c ∷ s) (d ∷ t) = ground (arith, text_leb_total s t)

text_leb_trans : (s t u : Text) → text_leb s t ≡ true → text_leb t u ≡ true → text_leb s u ≡ true
text_leb_trans [] t u h k = refl
text_leb_trans (c ∷ s) [] u h k = ground arith
text_leb_trans (c ∷ s) (d ∷ t) [] h k = ground arith
text_leb_trans (c ∷ s) (d ∷ t) (e ∷ u) h k = ground (arith, text_leb_trans s t u)

serial_order-IsOrder : IsOrder serial_order
serial_order-IsOrder = record {
  total = λ a b. text_leb_total b.serial_increment a.serial_increment;
  trans = λ a b c h k. text_leb_trans c.serial_increment b.serial_increment a.serial_increment k h;
}

keep-none :
    (p : Asset → Bool) (ds : List Asset) → length (keep p ds) ≡ 0 → All (λ d. p d ≡ false) ds
keep-none p [] h = tt
keep-none p (d ∷ ds) h = elim (Bool-cases (p d)) [
  | inl here ↦ absurd (ground arith)
  | inr not_here ↦ (not_here, keep-none p ds (ground arith))
]

next_serial-padded :
    (last : Asset) (n : ℕ) (z : ℤ)
    → n < 10000
    → last.serial_increment ≡ pad4 n
    → next_serial (ok last) ≡ ok z
    → z ≡ pos (suc n)
unfolding next_serial next_int
next_serial-padded last n z small padded h =
    let parsed : atoi last.serial_increment ≡ some (pos n) = ap atoi padded ∙ atoi-pad4 n small in
    ground arith

module _ {A : Type 0} (assets : Collection A Asset) (mongo : IsMongo assets) where
  -- The number ends with a serial that is greater than each one of the tenant's series, and no asset of
  -- any tenant has the number.
  pub data Fresh (tenant office category_no type_number : Text) (year : ℕ) (s : A) (number : Text)
      : Type 0 where
    fresh :
        (k : ℕ)
        → number ≡ asset_number office year category_no type_number (pos k)
        → 1 ≤ k
        → All
            (λ a.
              in_series tenant office year category_no type_number a ≡ true
              → (n : ℕ) × (a.serial_increment ≡ pad4 n) × (n < k))
            (assets.docs s)
        → All (λ a. a.asset_no ≢ number) (assets.docs s)
        → Fresh tenant office category_no type_number year s number

  module _ (tenant office category_no type_number : Text) (year : ℕ) (s : A)
      (padded : All
        (λ a. in_series tenant office year category_no type_number a ≡ true → Padded a)
        (assets.docs s)) where
    abbrev series : Asset → Bool
    series = in_series tenant office year category_no type_number

    abbrev Above : ℕ → Asset → Type 0
    Above k a = series a ≡ true → (n : ℕ) × (a.serial_increment ≡ pad4 n) × (n < k)

    abbrev last_query : Query Asset
    last_query = record { matches = series; precedes = serial_order; skip = 0; limit = 0 }

    Above-last :
        (last : Asset) (k : ℕ) (ds : List Asset)
        → k < 10000
        → last.serial_increment ≡ pad4 k
        → All (λ a. series a ≡ true → Padded a) ds
        → All (λ e. series e ≡ true → serial_order last e ≡ true) ds
        → All (Above (suc k)) ds
    Above-last last k [] small eq pads order = tt
    Above-last last k (d ∷ ds) small eq (pad, pads) (le, order) = (
      (λ inside.
          let (n, small_n, eq_n) = pad inside in
          let leb : text_leb (pad4 n) (pad4 k) ≡ true = sym (ap₂ text_leb eq_n eq) ∙ le inside in
          (n, eq_n, omega (arith, pad4_le k small n small_n leb))),
      Above-last last k ds small eq pads order,
    )

    serial-Above :
        (r : Result Asset) (z : ℤ)
        → assets.find_first last_query s ≡ r
        → next_serial r ≡ ok z
        → (k : ℕ) × (z ≡ pos k) × (1 ≤ k) × All (Above k) (assets.docs s)
    unfolding next_serial
    serial-Above (ok last) z found h =
        let (mem, inside, order) =
          mongo.find_first_found last_query s last serial_order-IsOrder found in
        let (n, small, eq) = All-mem _ (assets.docs s) padded mem inside in
        (
          suc n,
          next_serial-padded last n z small eq h,
          omega arith,
          Above-last last n (assets.docs s) small eq padded order,
        )
    serial-Above (err no_documents) z missing h = (
      1,
      ground arith,
      omega arith,
      All-map (λ a out inside. absurd (ground arith)) (assets.docs s)
          (mongo.find_first_missing last_query s no_documents missing refl),
    )
    serial-Above (err duplicate_key) z found h = absurd (ground arith)
    serial-Above (err (fault _)) z found h = absurd (ground arith)
    serial-Above (err (message _)) z found h = absurd (ground arith)
    serial-Above (err (about _ _)) z found h = absurd (ground arith)
    serial-Above (err (wrap _ _)) z found h = absurd (ground arith)

    -- Where the stored serials of the tenant's series have four digits, a generated number ends with a
    -- serial that is greater than each of them, and no stored asset has the number.
    pub generate_asset_number-Fresh :
        (s' : A) (number : Text)
        → generate_asset_number assets tenant office category_no type_number year s
          ≡ (s', ok number)
        → Fresh tenant office category_no type_number year s number
    unfolding generate_asset_number
    generate_asset_number-Fresh s' number h =
        let (_, after_require) = require-eq-ok assets.configured nil_store s _ h in
        let (z, serial, after_serial) =
          after-eq-ok (s, next_serial (assets.find_first last_query s)) _ after_require in
        let (n, counted, after_count) =
          after-eq-ok
            (
              s,
              on_error (wrap "store: check asset number uniqueness") (
                  assets.count
                    (λ a. same a.asset_no (asset_number office year category_no type_number z)) s),
            )
            _ after_serial in
        let (zero_count, done) =
          require-eq-ok (n == 0)
            (about "store: asset number already exists"
              (asset_number office year category_no type_number z))
            s _ after_count in
        let (k, z_eq, pos_k, above) = serial-Above (assets.find_first last_query s) z refl serial in
        let result_eq : Path (Result Text) (ok (asset_number office year category_no type_number z))
            (ok number) =
          ap (λ (r : A × Result Text). r.1) done in
        let made : asset_number office year category_no type_number z ≡ number = cc result_eq in
        let number_eq : number ≡ asset_number office year category_no type_number (pos k) =
          sym made ∙ ap (asset_number office year category_no type_number) z_eq in
        let unused : length (
              keep (λ a. same a.asset_no (asset_number office year category_no type_number z))
                (assets.docs s))
            ≡ 0 =
          sym (
            mongo.count_exact _ s n
              (on_error-eq-ok (wrap "store: check asset number uniqueness") _ counted))
          ∙ (==_iff n 0).0 zero_count in
        fresh k number_eq pos_k above (
          All-map
            (λ a other same_number.
              let twin : same a.asset_no (asset_number office year category_no type_number z)
                  ≡ true =
                (same_iff _ _).1 (same_number ∙ sym made) in
              cc (other, twin))
            (assets.docs s) (keep-none _ (assets.docs s) unused))
