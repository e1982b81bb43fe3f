-- ===== src/Mongo/Kept.antt =====
-- What an update of one document leaves as it was.
use mathlib.Core.List.{append-nil}
use kd_server.Common.{
  keep-append, any-append, ℕ, ◌≡◌, refl, sym, ap, ◌∙◌, ◌⊎◌, inl, inr, Bool, true, false, ◌||◌, List,
  [], ◌∷◌, ◌++◌, arith, any, keep, All,
}
use kd_server.Mongo.Laws.{Updated, missed, hit}

module _ {D : Type 0} {p : D → Bool} {f : D → D} {ds ds' : List D} {n : ℕ} where
  -- A test that the update keeps still finds a document.
  pub Updated-any :
      (q : D → Bool)
      → ((d : D) → p d ≡ true → q d ≡ true → q (f d) ≡ true)
      → Updated p f ds n ds'
      → any q ds ≡ true
      → any q ds' ≡ true
  Updated-any q kept (missed _ _ after_eq) h = rw after_eq h
  Updated-any q kept (hit xs d ys passes _ before_eq after_eq) h =
      let old : (any q xs || (q d || any q ys)) ≡ true =
        rw (before_eq, any-append q xs (d ∷ ys)) at h in
      let new : (any q xs || (q (f d) || any q ys)) ≡ true = ground (arith, kept d passes) in
      rw (after_eq, any-append q xs (f d ∷ ys)) new

  -- The documents that the filter does not see, nor the test after the update, stay as they are.
  pub Updated-keep :
      (q : D → Bool)
      → ((d : D) → p d ≡ true → (q d ≡ false) × (q (f d) ≡ false))
      → Updated p f ds n ds'
      → keep q ds' ≡ keep q ds
  Updated-keep q unseen (missed _ _ after_eq) = ap (keep q) after_eq
  Updated-keep q unseen (hit xs d ys passes _ before_eq after_eq) =
      let (was, is) = unseen d passes in
      let new : keep q (xs ++ f d ∷ ys) ≡ keep q xs ++ keep q ys =
        keep-append q xs (f d ∷ ys) ∙ simp (is) in
      let old : keep q (xs ++ d ∷ ys) ≡ keep q xs ++ keep q ys =
        keep-append q xs (d ∷ ys) ∙ simp (was) in
      ap (keep q) after_eq ∙ new ∙ sym old ∙ sym (ap (keep q) before_eq)

-- What `upsert_one_done` says of an upsert.
abbrev pub Upserted : {D : Type 0} → (D → Bool) → (D → D) → D → List D → List D → Type 0
Upserted p f d ds ds' = Updated p f ds 1 ds' ⊎ (All (λ e. p e ≡ false) ds × (ds' ≡ ds ++ d ∷ []))

module _ {D : Type 0} (p : D → Bool) (f : D → D) (fresh : D) {ds ds' : List D} where
  pub Upserted-any :
      (q : D → Bool)
      → ((d : D) → p d ≡ true → q d ≡ true → q (f d) ≡ true)
      → Upserted p f fresh ds ds'
      → any q ds ≡ true
      → any q ds' ≡ true
  Upserted-any q kept (inl updated) h = Updated-any q kept updated h
  Upserted-any q kept (inr (_, after_eq)) h = rw (after_eq, any-append q ds (fresh ∷ []), h) refl

  pub Upserted-here :
      (q : D → Bool)
      → ((d : D) → q (f d) ≡ true)
      → q fresh ≡ true
      → Upserted p f fresh ds ds'
      → any q ds' ≡ true
  Upserted-here q made new (inl (missed _ none_hit _)) = absurd (omega (arith, none_hit))
  Upserted-here q made new (inl (hit xs d ys _ _ _ after_eq)) =
      rw (after_eq, any-append q xs (f d ∷ ys), made d) (ground arith)
  Upserted-here q made new (inr (_, after_eq)) =
      rw (after_eq, any-append q ds (fresh ∷ []), new) (ground arith)

  pub Upserted-keep :
      (q : D → Bool)
      → ((d : D) → p d ≡ true → (q d ≡ false) × (q (f d) ≡ false))
      → q fresh ≡ false
      → Upserted p f fresh ds ds'
      → keep q ds' ≡ keep q ds
  Upserted-keep q unseen new (inl updated) = Updated-keep q unseen updated
  Upserted-keep q unseen new (inr (_, after_eq)) =
      ap (keep q) after_eq ∙ keep-append q ds (fresh ∷ []) ∙ simp (new, append-nil (keep q ds))
