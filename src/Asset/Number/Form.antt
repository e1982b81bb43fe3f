-- ===== src/Asset/Number/Form.antt =====
-- The form of the generated numbers.
use kd_server.Common.{ℕ, ◌<◌, ◌≡◌, refl, sym, true, false, not, [], ◌∷◌, ◌++◌, arith, ◌==◌, all}
use kd_server.Text.{Text, codes, same_iff}
use kd_server.Format.{pos, pad4, format_04d}
use mathlib.Core.Path.{subst}
use kd_server.Asset.Number.{
  split, upper_or_digit, decimal_digit, is_office, is_number, is_category, matches_asset_no,
  asset_number,
}

split-append :
    (sep : ℕ) (w s : Text)
    → all (λ c. not (c == sep)) w ≡ true
    → split sep (w ++ sep ∷ s) ≡ w ∷ split sep s
unfolding split
split-append sep [] s h = ground arith
split-append sep (c ∷ w) s h =
    let here : (c == sep) ≡ false = ground arith in
    let rest : all (λ c. not (c == sep)) w ≡ true = ground arith in
    simp (here, split-append sep w s rest)

split-last : (sep : ℕ) (w : Text) → all (λ c. not (c == sep)) w ≡ true → split sep w ≡ w ∷ []
unfolding split
split-last sep [] h = refl
split-last sep (c ∷ w) h =
    let here : (c == sep) ≡ false = ground arith in
    let rest : all (λ c. not (c == sep)) w ≡ true = ground arith in
    simp (here, split-last sep w rest)

abbrev NoHyphen : Text → Type 0
NoHyphen w = all (λ c. not (c == b'-')) w ≡ true

-- Digits and capital letters are no hyphens.
office-NoHyphen : (w : Text) → all upper_or_digit w ≡ true → NoHyphen w
office-NoHyphen [] h = refl
office-NoHyphen (c ∷ w) h = ground (arith, office-NoHyphen w)

digits-NoHyphen : (w : Text) → all decimal_digit w ≡ true → NoHyphen w
digits-NoHyphen [] h = refl
digits-NoHyphen (c ∷ w) h = ground (arith, digits-NoHyphen w)

category-NoHyphen : (w : Text) → is_category w ≡ true → NoHyphen w
category-NoHyphen [] h = ground arith
category-NoHyphen (a ∷ []) h = ground arith
category-NoHyphen (a ∷ b ∷ []) h = ground arith
category-NoHyphen (a ∷ b ∷ c ∷ w) h =
    subst NoHyphen (sym ((same_iff (a ∷ b ∷ c ∷ w) (codes "290")).0 h)) refl

pad4-is_number : (n : ℕ) → n < 10000 → is_number 4 (pad4 n) ≡ true
unfolding pad4
pad4-is_number n small = ground arith

split_number :
    (o y c t n : Text)
    → NoHyphen o
    → NoHyphen y
    → NoHyphen c
    → NoHyphen t
    → NoHyphen n
    → split b'-' (o ++ b'-' ∷ (y ++ b'-' ∷ (c ++ b'-' ∷ (t ++ b'-' ∷ n)))) ≡ o ∷ y ∷ c ∷ t ∷ n ∷ []
split_number o y c t n ho hy hc ht hn = rw (
  split-append b'-' o (y ++ b'-' ∷ (c ++ b'-' ∷ (t ++ b'-' ∷ n))) ho,
  split-append b'-' y (c ++ b'-' ∷ (t ++ b'-' ∷ n)) hy,
  split-append b'-' c (t ++ b'-' ∷ n) hc,
  split-append b'-' t n ht,
  split-last b'-' n hn,
)

-- A number of an office, a category and a type of the right form, of a year and a serial of four
-- digits, is one that the lookup accepts.
pub matches-asset_number :
    (office category_no type_number : Text) (year serial : ℕ)
    → is_office office ≡ true
    → is_category category_no ≡ true
    → is_number 3 type_number ≡ true
    → year < 10000
    → serial < 10000
    → matches_asset_no (asset_number office year category_no type_number (pos serial)) ≡ true
unfolding matches_asset_no asset_number format_04d
matches-asset_number office category_no type_number year serial ho hc ht small_year small_serial =
    let y : is_number 4 (pad4 year) ≡ true = pad4-is_number year small_year in
    let n : is_number 4 (pad4 serial) ≡ true = pad4-is_number serial small_serial in
    rw
      (split_number office (pad4 year) category_no type_number (pad4 serial)
        (office-NoHyphen office (ground arith)) (digits-NoHyphen (pad4 year) (ground arith))
        (category-NoHyphen category_no hc) (digits-NoHyphen type_number (ground arith))
        (digits-NoHyphen (pad4 serial) (ground arith)))
      (simp (ho, y, hc, ht, n))
