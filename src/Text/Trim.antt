-- ===== src/Text/Trim.antt =====
-- Laws of `strings.TrimSpace`.
use kd_server.Common.{ℕ, ◌≡◌, refl, false, ◌&&◌, [], ◌∷◌, arith, Bool-cases, All, inl, inr}
use kd_server.Text.{Text, is_empty, is_space, trim_left, trim_right, trim_space}

-- A text with no white space.
abbrev pub IsSolid : Text → Type 0
IsSolid = All (λ c. is_space c ≡ false)

trim_right-IsSolid : (s : Text) → IsSolid s → trim_right s ≡ s
unfolding trim_right
trim_right-IsSolid [] h = refl
trim_right-IsSolid (c ∷ s) (p, h) = rw (p, trim_right-IsSolid s h)

trim_left-IsSolid : (s : Text) → IsSolid s → trim_left s ≡ s
unfolding trim_left
trim_left-IsSolid [] h = refl
trim_left-IsSolid (c ∷ s) (p, h) = rw p

pub trim_space-IsSolid : (s : Text) → IsSolid s → trim_space s ≡ s
unfolding trim_space
trim_space-IsSolid s h = rw (trim_right-IsSolid s h) (trim_left-IsSolid s h)

-- What holds of every character holds of those that are left.
pub All-trim_space {ℓ} : (P : ℕ → Type ℓ) (s : Text) → All P s → All P (trim_space s)
unfolding trim_space
All-trim_space P s h = left (trim_right s) (right s h)
  where
    right : (s : Text) → All P s → All P (trim_right s)
    right [] h = tt
    right (c ∷ s) (p, h) = elim (Bool-cases (is_space c && is_empty (trim_right s))) [
      | inl e ↦ rw e tt
      | inr e ↦ rw e (p, right s h)
    ]

    left : (s : Text) → All P s → All P (trim_left s)
    left [] h = tt
    left (c ∷ s) (p, h) = elim (Bool-cases (is_space c)) [
      | inl e ↦ rw e (left s h)
      | inr e ↦ rw e (p, h)
    ]

trim_left_idem : (s : Text) → trim_left (trim_left s) ≡ trim_left s
unfolding trim_left
trim_left_idem [] = refl
trim_left_idem (c ∷ s) = ground (arith, trim_left_idem s)

trim_right_idem : (s : Text) → trim_right (trim_right s) ≡ trim_right s
unfolding trim_right
trim_right_idem [] = refl
trim_right_idem (c ∷ s) = ground (arith, trim_right_idem s)

trim_right-left : (s : Text) → trim_right (trim_left s) ≡ trim_left (trim_right s)
unfolding trim_left trim_right
trim_right-left [] = refl
trim_right-left (c ∷ s) = ground (arith, trim_right-left s)

-- Trimming twice is trimming once.
pub trim_space_idem : (s : Text) → trim_space (trim_space s) ≡ trim_space s
unfolding trim_space
trim_space_idem s =
    rw (trim_right-left (trim_right s), trim_right_idem s) (trim_left_idem (trim_right s))
