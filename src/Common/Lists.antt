-- ===== src/Common/Lists.antt =====
-- Lists measured by native numbers, with Boolean tests, and the predicate on every item.
use Prim.Native.Nat.{ℕ, zero, suc, ◌+◌, ◌≤◌}
use mathlib.Core.Path.{sym, subst, ◌≡◌, refl}
use mathlib.Core.Logic.{inl, inr}
use mathlib.Core.Bool.{Bool, true, false, ◌&&◌, ◌||◌}
use mathlib.Core.List.{map, Memᴰ, List, [], ◌∷◌, ◌++◌, map}
use native.Mathlib.Omega.{arith}
use kd_server.Common.Tests.{if◌then◌else◌, Bool-cases}

module _ {ℓ} {A : Type ℓ} where
  abbrev pub length : List A → ℕ
  length [] = 0
  length (x ∷ xs) = suc (length xs)

  abbrev pub take : ℕ → List A → List A
  take zero xs = []
  take (suc n) [] = []
  take (suc n) (x ∷ xs) = x ∷ take n xs

  abbrev pub drop : ℕ → List A → List A
  drop zero xs = xs
  drop (suc n) [] = []
  drop (suc n) (x ∷ xs) = drop n xs

  abbrev pub any : (A → Bool) → List A → Bool
  any p [] = false
  any p (x ∷ xs) = p x || any p xs

  abbrev pub all : (A → Bool) → List A → Bool
  all p [] = true
  all p (x ∷ xs) = p x && all p xs

  abbrev pub keep : (A → Bool) → List A → List A
  keep p [] = []
  keep p (x ∷ xs) = if p x then x ∷ keep p xs else keep p xs

  pub length-append : (xs ys : List A) → length (xs ++ ys) ≡ length xs + length ys
  length-append [] ys = omega arith
  length-append (x ∷ xs) ys = omega (arith, length-append xs ys)

  pub length-take-le : (n : ℕ) (xs : List A) → length (take n xs) ≤ n
  length-take-le zero xs = omega arith
  length-take-le (suc n) [] = omega arith
  length-take-le (suc n) (x ∷ xs) = omega (arith, length-take-le n xs)

module _ {ℓ κ} {A : Type ℓ} (P : A → Type κ) where
  abbrev pub All : List A → Type κ
  All [] = Unit
  All (x ∷ xs) = P x × All xs

  pub All-append : (xs ys : List A) → All xs → All ys → All (xs ++ ys)
  All-append [] ys h k = k
  All-append (x ∷ xs) ys (p, h) k = (p, All-append xs ys h k)

  pub All-left : (xs ys : List A) → All (xs ++ ys) → All xs
  All-left [] ys h = tt
  All-left (x ∷ xs) ys (p, h) = (p, All-left xs ys h)

  pub All-right : (xs ys : List A) → All (xs ++ ys) → All ys
  All-right [] ys h = h
  All-right (x ∷ xs) ys (p, h) = All-right xs ys h

module _ {ℓ κ μ} {A : Type ℓ} {P : A → Type κ} {Q : A → Type μ} where
  pub All-map : ((a : A) → P a → Q a) → (xs : List A) → All P xs → All Q xs
  All-map f [] h = tt
  All-map f (x ∷ xs) (p, h) = (f x p, All-map f xs h)

-- What holds of every item holds of a member.
pub All-mem {ℓ κ} : {A : Type ℓ} (P : A → Type κ) (xs : List A) {a : A} → All P xs → Memᴰ a xs → P a
All-mem P [] h m = elim m [ ]
All-mem P (x ∷ xs) (p, h) (Memᴰ.head q) = subst P (sym q) p
All-mem P (x ∷ xs) (p, h) (Memᴰ.tail m) = All-mem P xs h m

module _ {ℓ} {A : Type ℓ} where
  pub any-append : (p : A → Bool) (xs ys : List A) → any p (xs ++ ys) ≡ (any p xs || any p ys)
  any-append p [] ys = refl
  any-append p (x ∷ xs) ys = ground (arith, any-append p xs ys)

  pub any-mem : (p : A → Bool) (xs : List A) {a : A} → Memᴰ a xs → p a ≡ true → any p xs ≡ true
  any-mem p [] m h = elim m [ ]
  any-mem p (x ∷ xs) (Memᴰ.head q) h = let here : p x ≡ true = rw q at h in ground arith
  any-mem p (x ∷ xs) (Memᴰ.tail m) h = ground (arith, any-mem p xs m h)

  pub keep-append : (p : A → Bool) (xs ys : List A) → keep p (xs ++ ys) ≡ keep p xs ++ keep p ys
  keep-append p [] ys = refl
  keep-append p (x ∷ xs) ys = elim (Bool-cases (p x)) [
    | inl y ↦ simp (y, keep-append p xs ys)
    | inr n ↦ simp (n, keep-append p xs ys)
  ]

  -- A map that leaves the kept items alone, and makes none of the others one to keep.
  pub keep-map :
      (p : A → Bool) (f : A → A)
      → ((a : A) → p a ≡ true → f a ≡ a)
      → ((a : A) → p a ≡ false → p (f a) ≡ false)
      → (xs : List A) → keep p (map f xs) ≡ keep p xs
  keep-map p f same_kept other [] = refl
  keep-map p f same_kept other (x ∷ xs) = elim (Bool-cases (p x)) [
    | inl y ↦ simp (same_kept x y, y, keep-map p f same_kept other xs)
    | inr n ↦ simp (other x n, n, keep-map p f same_kept other xs)
  ]

  pub all-map :
      (p : A → Bool) (f : A → A)
      → ((a : A) → p a ≡ true → p (f a) ≡ true)
      → (xs : List A) → all p xs ≡ true
      → all p (map f xs) ≡ true
  all-map p f kept [] h = refl
  all-map p f kept (x ∷ xs) h = ground (arith, kept x, all-map p f kept xs)

  pub all-mapped :
      (p : A → Bool) (f : A → A)
      → ((a : A) → p (f a) ≡ true)
      → (xs : List A) → all p (map f xs) ≡ true
  all-mapped p f made [] = refl
  all-mapped p f made (x ∷ xs) = ground (arith, made x, all-mapped p f made xs)
