-- ===== src/Mongo/Memory.antt =====
-- A collection kept in memory, which no call fails on: it shows that the laws can be met, and it is
-- what the tests run on.
use mathlib.Core.List.{Perm}
use mathlib.Core.Path.{subst}
use mathlib.Core.List.Perm
use mathlib.Core.List.Memᴰ
use kd_server.Common.{
  ℕ, Bool, true, false, List, [], ◌∷◌, ◌++◌, map, Memᴰ, ◌≡◌, ◌⊎◌, inl, inr, refl, sym, ap, Result,
  ok, err, no_documents, Error, if◌then◌else◌, All, keep, length, arith, Bool-cases,
}
use kd_server.Mongo.{Query, page, Collection}
use kd_server.Mongo.Laws.{Updated, missed, hit, IsOrder, IsMongo}

module _ {D : Type 0} where
  pub first : (D → Bool) → List D → Result D
  first p [] = err no_documents
  first p (d ∷ ds) = if p d then ok d else first p ds

  place : (D → D → Bool) → D → List D → List D
  place le d [] = d ∷ []
  place le d (e ∷ ds) = if le d e then d ∷ e ∷ ds else e ∷ place le d ds

  sort : (D → D → Bool) → List D → List D
  sort le [] = []
  sort le (d ∷ ds) = place le d (sort le ds)

  best : (D → D → Bool) → D → List D → D
  best le d [] = d
  best le d (e ∷ ds) = best le (if le d e then d else e) ds

  pub head_of : Query D → List D → Result D
  unfolding best
  head_of q [] = err no_documents
  head_of q (d ∷ ds) = ok (best q.precedes d ds)

  pub update_first : (D → Bool) → (D → D) → List D → List D × Result ℕ
  update_first p f [] = ([], ok 0)
  update_first p f (d ∷ ds) =
      let (ds', n) = update_first p f ds in if p d then (f d ∷ ds, ok 1) else (d ∷ ds', n)

  pub upsert : (D → Bool) → (D → D) → D → List D → List D × Result (Unit {0})
  upsert p f d [] = (d ∷ [], ok tt)
  upsert p f d (e ∷ ds) =
      let (ds', n) = upsert p f d ds in if p e then (f e ∷ ds, ok tt) else (e ∷ ds', n)

  pub update_found : (D → Bool) → (D → D) → List D → List D × Result D
  update_found p f [] = ([], err no_documents)
  update_found p f (d ∷ ds) =
      let (ds', r) = update_found p f ds in if p d then (f d ∷ ds, ok (f d)) else (d ∷ ds', r)

  unfoldable pub memory : Collection (List D) D
  unfolding first head_of update_first update_found upsert sort place best
  memory = record {
    configured = true;
    docs = λ ds. ds;
    find_one = first;
    find_first = λ q ds. head_of q (keep q.matches ds);
    find = λ q ds. ok (page q.skip q.limit (sort q.precedes (keep q.matches ds)));
    count = λ p ds. ok (length (keep p ds));
    insert_one = λ d ds. (ds ++ d ∷ [], ok tt);
    insert_many = λ new ds. (ds ++ new, ok tt);
    update_one = update_first;
    update_many = λ p f ds. (map (λ d. if p d then f d else d) ds, ok (length (keep p ds)));
    upsert_one = upsert;
    find_one_and_update = update_found;
  }

  first_found : (p : D → Bool) (ds : List D) (d : D) → first p ds ≡ ok d → Memᴰ d ds × (p d ≡ true)
  unfolding first
  first_found p [] d h = cc
  first_found p (e ∷ ds) d h = elim (Bool-cases (p e)) [
    | inl y ↦ let q : e ≡ d = ground arith in (Memᴰ.head (ground arith), rw q at y)
    | inr n ↦ let (m, q) = first_found p ds d (rw n at h) in (Memᴰ.tail m, q)
  ]

  first_missing :
      (p : D → Bool) (ds : List D) {e : Error} → first p ds ≡ err e → All (λ d. p d ≡ false) ds
  unfolding first
  first_missing p [] h = tt
  first_missing p (e ∷ ds) h = elim (Bool-cases (p e)) [
    | inl y ↦ absurd (ground arith)
    | inr n ↦ (n, first_missing p ds (rw n at h))
  ]

  place-perm : (le : D → D → Bool) (d : D) (ds : List D) → Perm (place le d ds) (d ∷ ds)
  unfolding place
  place-perm le d [] = Perm.refl (d ∷ [])
  place-perm le d (e ∷ ds) = elim (Bool-cases (le d e)) [
    | inl y ↦ rw y (Perm.refl (d ∷ e ∷ ds))
    | inr n ↦ rw n (Perm.trans (Perm.cons e (place-perm le d ds)) (Perm.swap d e ds))
  ]

  sort-perm : (le : D → D → Bool) (ds : List D) → Perm (sort le ds) ds
  unfolding sort
  sort-perm le [] = Perm.refl []
  sort-perm le (d ∷ ds) = Perm.trans (place-perm le d (sort le ds)) (Perm.cons d (sort-perm le ds))

  Updated-later :
      {p : D → Bool} {f : D → D} {d : D} {ds ds' : List D} {n : ℕ}
      → p d ≡ false
      → Updated p f ds n ds'
      → Updated p f (d ∷ ds) n (d ∷ ds')
  Updated-later {d} fails (missed none_passes zero_matched same) =
      missed (fails, none_passes) zero_matched (ap (λ r. d ∷ r) same)
  Updated-later {d} fails (hit xs e ys passes one_matched before now) =
      hit (d ∷ xs) e ys passes one_matched (ap (λ r. d ∷ r) before) (ap (λ r. d ∷ r) now)

  update_first-Updated :
      (p : D → Bool) (f : D → D) (ds : List D) (n : ℕ)
      → (update_first p f ds).1 ≡ ok n
      → Updated p f ds n (update_first p f ds).0
  unfolding update_first
  update_first-Updated p f [] n h = missed tt (ground arith) refl
  update_first-Updated p f (d ∷ ds) n h = elim (Bool-cases (p d)) [
    | inl y ↦ hit [] d ds y (ground arith) refl (rw y)
    | inr no_match ↦
        rw no_match (Updated-later no_match (update_first-Updated p f ds n (rw no_match at h)))
  ]

  upsert_done :
      (p : D → Bool) (f : D → D) (d : D) (ds : List D)
      → Updated p f ds 1 (upsert p f d ds).0
        ⊎ (All (λ e. p e ≡ false) ds × ((upsert p f d ds).0 ≡ ds ++ d ∷ []))
  unfolding upsert
  upsert_done p f d [] = inr (tt, refl)
  upsert_done p f d (e ∷ ds) = elim (Bool-cases (p e)) [
    | inl y ↦ inl (hit [] e ds y refl refl (rw y))
    | inr no_match ↦ rw no_match (elim (upsert_done p f d ds) [
      | inl u ↦ inl (Updated-later no_match u)
      | inr (fails, added) ↦ inr ((refl, fails), ap (λ r. e ∷ r) added)
    ])
  ]

  update_found_done :
      (p : D → Bool) (f : D → D) (ds : List D) (d' : D)
      → (update_found p f ds).1 ≡ ok d'
      → (d : D) × (p d ≡ true) × (d' ≡ f d) × Memᴰ d ds × Updated p f ds 1 (update_found p f ds).0
  unfolding update_found
  update_found_done p f [] d' h = cc
  update_found_done p f (d ∷ ds) d' h = elim (Bool-cases (p d)) [
    | inl y ↦ (d, y, ground arith, Memᴰ.head refl, hit [] d ds y refl refl (rw y))
    | inr n ↦
        let (e, y, same, m, u) = update_found_done p f ds d' (rw n at h) in
        (e, y, same, Memᴰ.tail m, rw n (Updated-later n u))
  ]

  best-keep :
      (le : D → D → Bool) (d e : D) (ds : List D)
      → le d e ≡ true
      → best le d (e ∷ ds) ≡ best le d ds
  unfolding best
  best-keep le d e ds h = rw h

  best-next :
      (le : D → D → Bool) (d e : D) (ds : List D)
      → le d e ≡ false
      → best le d (e ∷ ds) ≡ best le e ds
  unfolding best
  best-next le d e ds h = rw h

  best-nil : (le : D → D → Bool) (d : D) → best le d [] ≡ d
  unfolding best
  best-nil le d = refl

  Memᴰ-cons_second : {x d : D} (e : D) {ds : List D} → Memᴰ x (d ∷ ds) → Memᴰ x (d ∷ e ∷ ds)
  Memᴰ-cons_second e (Memᴰ.head q) = Memᴰ.head q
  Memᴰ-cons_second e (Memᴰ.tail m) = Memᴰ.tail (Memᴰ.tail m)

  abbrev Leads : (D → D → Bool) → D → D → List D → Type 0
  Leads le x d ds = Memᴰ x (d ∷ ds) × (le x d ≡ true) × All (λ e. le x e ≡ true) ds

  -- The first by the order is before all others.
  best_first :
      (le : D → D → Bool) → IsOrder le → (d : D) (ds : List D) → Leads le (best le d ds) d ds
  best_first le o d [] =
      (Memᴰ.head (best-nil le d), rw (best-nil le d) (ground (arith, o.total d d)), tt)
  best_first le o d (e ∷ ds) = elim (Bool-cases (le d e)) [
    | inl y ↦
        let (m, before, rest) = best_first le o d ds in
        subst (λ x. Leads le x d (e ∷ ds)) (sym (best-keep le d e ds y))
          (Memᴰ-cons_second e m, before, (o.trans _ d e before y, rest))
    | inr n ↦
        let (m, before, rest) = best_first le o e ds in
        let turned : le e d ≡ true = ground (arith, o.total d e) in
        subst (λ x. Leads le x d (e ∷ ds)) (sym (best-next le d e ds n))
          (Memᴰ.tail m, o.trans _ e d before turned, (before, rest))
  ]

  Memᴰ-keep : (p : D → Bool) (ds : List D) {d : D} → Memᴰ d (keep p ds) → Memᴰ d ds × (p d ≡ true)
  Memᴰ-keep p [] m = elim m [ ]
  Memᴰ-keep p (e ∷ ds) {d} m = elim (Bool-cases (p e)) [
    | inl y ↦ elim (Memᴰ.cases_cons (rw y at m)) [
      | inl q ↦ (Memᴰ.head q, rw q y)
      | inr k ↦ let (k', q) = Memᴰ-keep p ds k in (Memᴰ.tail k', q)
    ]
    | inr n ↦ let (k, q) = Memᴰ-keep p ds (rw n at m) in (Memᴰ.tail k, q)
  ]

  All-keep :
      (p : D → Bool) (P : D → Type 0) (ds : List D)
      → All P (keep p ds)
      → All (λ d. p d ≡ true → P d) ds
  All-keep p P [] h = tt
  All-keep p P (e ∷ ds) h = elim (Bool-cases (p e)) [
    | inl y ↦ let (k, ks) = rw y at h in (λ _. k, All-keep p P ds ks)
    | inr n ↦ (λ y. absurd (ground arith), All-keep p P ds (rw n at h))
  ]

  keep-nil : (p : D → Bool) (ds : List D) → keep p ds ≡ [] → All (λ d. p d ≡ false) ds
  keep-nil p [] h = tt
  keep-nil p (e ∷ ds) h = elim (Bool-cases (p e)) [
    | inl y ↦ absurd (ground arith)
    | inr n ↦ (n, keep-nil p ds (rw n at h))
  ]

  head_of_found :
      (q : Query D) (ds : List D) {d : D}
      → IsOrder q.precedes
      → head_of q ds ≡ ok d
      → Memᴰ d ds × All (λ e. q.precedes d e ≡ true) ds
  unfolding head_of
  head_of_found q [] o h = cc
  head_of_found q (e ∷ ds) {d} o h =
      let (m, before, rest) = best_first q.precedes o e ds in
      let same : best q.precedes e ds ≡ d = cc in
      subst (λ x. Memᴰ x (e ∷ ds) × All (λ d. q.precedes x d ≡ true) (e ∷ ds)) same
        (m, (before, rest))

  head_of_missing : (q : Query D) (ds : List D) {x : Error} → head_of q ds ≡ err x → ds ≡ []
  unfolding head_of
  head_of_missing q [] h = refl
  head_of_missing q (e ∷ ds) h = cc

  find_first_found :
      (q : Query D) (s : List D) (d : D)
      → IsOrder q.precedes
      → head_of q (keep q.matches s) ≡ ok d
      → Memᴰ d s × (q.matches d ≡ true) × All (λ e. q.matches e ≡ true → q.precedes d e ≡ true) s
  find_first_found q s d o h =
      let (m, rest) = head_of_found q (keep q.matches s) o h in
      let (m', y) = Memᴰ-keep q.matches s m in
      (m', y, All-keep q.matches (λ e. q.precedes d e ≡ true) s rest)

  pub memory-IsMongo : IsMongo memory
  unfolding memory
  memory-IsMongo = record {
    find_one_found = first_found;
    find_one_missing = λ p s e h i. first_missing p s h;
    find_first_found = find_first_found;
    find_first_missing = λ q s e h i. keep-nil q.matches s (head_of_missing q (keep q.matches s) h);
    find_page = λ q s ds h.
        (sort q.precedes (keep q.matches s), sort-perm q.precedes (keep q.matches s), cc);
    count_exact = λ p s n h. cc;
    insert_one_done = λ d s h. refl;
    insert_one_atomic = λ d s. inr refl;
    insert_many_done = λ ds s h. refl;
    update_one_done = update_first-Updated;
    update_many_done = λ p f s n h. refl;
    find_one_and_update_done = update_found_done;
    upsert_one_done = λ p f d s h. upsert_done p f d s;
  }
