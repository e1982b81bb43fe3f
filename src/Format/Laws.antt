-- ===== src/Format/Laws.antt =====
-- Padded numbers: what they parse to, and how their texts compare.
use kd_server.Common.{
  ℕ, ◌+◌, ◌*◌, ◌/◌, ◌%◌, ◌≤◌, ◌<◌, ◌≡◌, sym, ◌∙◌, ◌⊎◌, inl, inr, true, some, [], ◌∷◌, arith,
}
use kd_server.Text.{Text, text_leb}
use kd_server.Format.{pos, atoi, pad4, digits_value, digit}
use kd_server.Time.{is_digit}
use mathlib.Core.Path.{ap₂}

text_leb_cases :
    (c d : ℕ) (s t : Text)
    → text_leb (c ∷ s) (d ∷ t) ≡ true
    → (c < d) ⊎ (c ≡ d) × (text_leb s t ≡ true)
text_leb_cases c d s t h = ground arith

-- Four digits in the order of texts are in the order of their numbers.
four_digits_le :
    (a b c d e f g h : ℕ)
    → a < 10
    → b < 10
    → c < 10
    → d < 10
    → e < 10
    → f < 10
    → g < 10
    → h < 10
    → text_leb
        ((48 + a) ∷ (48 + b) ∷ (48 + c) ∷ (48 + d) ∷ [])
        ((48 + e) ∷ (48 + f) ∷ (48 + g) ∷ (48 + h) ∷ [])
      ≡ true
    → a * 1000 + b * 100 + c * 10 + d ≤ e * 1000 + f * 100 + g * 10 + h
four_digits_le a b c d e f g h pa pb pc pd pe pf pg ph t =
    elim (text_leb_cases (48 + a) (48 + e) ((48 + b) ∷ (48 + c) ∷ (48 + d) ∷ [])
      ((48 + f) ∷ (48 + g) ∷ (48 + h) ∷ []) t) [
        | inl lt ↦ omega arith
        | inr (eq1, t1) ↦
            elim (text_leb_cases (48 + b) (48 + f) ((48 + c) ∷ (48 + d) ∷ [])
              ((48 + g) ∷ (48 + h) ∷ []) t1) [
                | inl lt ↦ omega arith
                | inr (eq2, t2) ↦
                    elim (text_leb_cases (48 + c) (48 + g) ((48 + d) ∷ []) ((48 + h) ∷ []) t2) [
                      | inl lt ↦ omega arith
                      | inr (eq3, t3) ↦ elim (text_leb_cases (48 + d) (48 + h) [] [] t3) [
                        | inl lt ↦ omega arith
                        | inr (eq4, t4) ↦ omega arith
                      ]
                    ]
              ]
      ]

four_digits :
    (n : ℕ)
    → n < 10000
    → n ≡ (n / 1000 % 10) * 1000 + (n / 100 % 10) * 100 + (n / 10 % 10) * 10 + n % 10
four_digits n small = omega arith

pad4_small :
    (n : ℕ)
    → n < 10000
    → pad4 n ≡ digit (n / 1000) ∷ digit (n / 100) ∷ digit (n / 10) ∷ digit n ∷ []
unfolding pad4
pad4_small n small = ground arith

module _ (n : ℕ) (small : n < 10000) where
  pub atoi-pad4 : atoi (pad4 n) ≡ some (pos n)
  unfolding atoi digits_value pad4 is_digit
  atoi-pad4 = ground arith

  -- The order of the texts is the order of the numbers.
  pub pad4_le : (m : ℕ) → m < 10000 → text_leb (pad4 m) (pad4 n) ≡ true → m ≤ n
  pad4_le m small_m h =
      let both : pad4 m ≡ digit (m / 1000) ∷ digit (m / 100) ∷ digit (m / 10) ∷ digit m ∷ [] =
        pad4_small m small_m in
      let padded : text_leb (digit (m / 1000) ∷ digit (m / 100) ∷ digit (m / 10) ∷ digit m ∷ [])
            (digit (n / 1000) ∷ digit (n / 100) ∷ digit (n / 10) ∷ digit n ∷ [])
          ≡ true =
        sym (ap₂ text_leb both (pad4_small n small)) ∙ h in
      let ordered : (m / 1000 % 10) * 1000 + (m / 100 % 10) * 100 + (m / 10 % 10) * 10 + m % 10
          ≤ (n / 1000 % 10) * 1000 + (n / 100 % 10) * 100 + (n / 10 % 10) * 10 + n % 10 =
        four_digits_le (m / 1000 % 10) (m / 100 % 10) (m / 10 % 10) (m % 10) (n / 1000 % 10)
          (n / 100 % 10) (n / 10 % 10) (n % 10) (omega arith) (omega arith) (omega arith)
          (omega arith) (omega arith) (omega arith) (omega arith) (omega arith) padded in
      omega (arith, four_digits m small_m, four_digits n small)
