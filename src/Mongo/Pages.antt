-- ===== src/Mongo/Pages.antt =====
-- The documents that a query returns.
use kd_server.Common.{
  ℕ, zero, suc, ◌≤◌, ◌≡◌, refl, sym, ap, ◌∙◌, inl, inr, Bool, true, List, [], ◌∷◌, arith,
  Bool-cases, length, take, drop, all, keep, ok, length-take-le,
}
use kd_server.Mongo.{Query, page, Collection}
use kd_server.Mongo.Laws.{IsMongo}
use mathlib.Core.List.{Perm, Permᴰ}
use mathlib.Core.Logic.{∥∥₁_elim}
use mathlib.Core.Bool.{Bool-set}
use mathlib.Core.Path.{subst}

module _ {D : Type 0} (p : D → Bool) where
  all-keep : (ds : List D) → all p (keep p ds) ≡ true
  all-keep [] = refl
  all-keep (d ∷ ds) = elim (Bool-cases (p d)) [
    | inl here ↦ simp (here, all-keep ds)
    | inr out ↦ simp (out, all-keep ds)
  ]

  all-Permᴰ : (xs ys : List D) → Permᴰ xs ys → all p ys ≡ true → all p xs ≡ true
  all-Permᴰ [] [] Permᴰ.nil h = h
  all-Permᴰ (x ∷ xs) (y ∷ ys) (Permᴰ.cons q m) h =
      let rest : all p xs ≡ true = all-Permᴰ xs ys m (ground arith) in
      let here : p x ≡ p y = ap p q in ground arith
  all-Permᴰ _ _ (Permᴰ.swap {a = a} {b = b} {a' = c} {b' = d} q r) h =
      let one : p a ≡ p d = ap p q in let two : p b ≡ p c = ap p r in ground arith
  all-Permᴰ xs zs (Permᴰ.trans {l₂ = ys} m n) h = all-Permᴰ xs ys m (all-Permᴰ ys zs n h)

  all-Perm : (xs ys : List D) → Perm xs ys → all p ys ≡ true → all p xs ≡ true
  all-Perm xs ys m h = ∥∥₁_elim m (Bool-set (all p xs) true) (λ d. all-Permᴰ xs ys d h)

  all-take : (n : ℕ) (ds : List D) → all p ds ≡ true → all p (take n ds) ≡ true
  all-take zero ds h = refl
  all-take (suc n) [] h = refl
  all-take (suc n) (d ∷ ds) h = ground (arith, all-take n ds)

  all-drop : (n : ℕ) (ds : List D) → all p ds ≡ true → all p (drop n ds) ≡ true
  all-drop zero ds h = h
  all-drop (suc n) [] h = refl
  all-drop (suc n) (d ∷ ds) h = all-drop n ds (ground arith)

  all-page : (skip limit : ℕ) (ds : List D) → all p ds ≡ true → all p (page skip limit ds) ≡ true
  all-page skip zero ds h = all-drop skip ds h
  all-page skip (suc limit) ds h = all-take (suc limit) (drop skip ds) (all-drop skip ds h)

length-page :
    {D : Type 0} → (skip limit : ℕ) (ds : List D) → 1 ≤ limit → length (page skip limit ds) ≤ limit
length-page skip zero ds h = omega arith
length-page skip (suc limit) ds h = length-take-le (suc limit) (drop skip ds)

-- What a query that succeeds returns passes its filter, and is at most the limit if there is one.
pub find-page :
    {S D : Type 0} (c : Collection S D)
    → IsMongo c
    → (q : Query D) (s : S) (ds : List D) → c.find q s ≡ ok ds
    → (all q.matches ds ≡ true) × (1 ≤ q.limit → length ds ≤ q.limit)
find-page c mongo q s ds found =
    let (whole, perm, paged) = mongo.find_page q s ds found in
    let kept : all q.matches whole ≡ true =
      all-Perm q.matches whole (keep q.matches (c.docs s)) perm (all-keep q.matches (c.docs s)) in
    (
      ap (all q.matches) paged ∙ all-page q.matches q.skip q.limit whole kept,
      λ some_limit.
          subst (λ l. length l ≤ q.limit) (sym paged) (length-page q.skip q.limit whole some_limit),
    )
