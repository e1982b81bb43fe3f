-- ===== src/Extraction/Regex/Language.antt =====
-- The texts that a pattern describes, without regard to where they stand, and that a match is one of them.
use kd_server.Common.{
  ℕ, zero, suc, ◌-◌, ◌≡◌, refl, sym, ap, ◌∙◌, ◌⊎◌, inl, inr, Bool, true, Option, none, some, [],
  ◌∷◌, ◌++◌, arith, Bool-cases, Option-cases, length, take, all, length-append,
}
use kd_server.Text.{Text}
use mathlib.Core.Path.{subst}
use kd_server.Extraction.Regex.{
  Regex, one, many, maybe, start, boundary, seq, alt, or_try, run, run_many, is_boundary, Match,
  match_here, matched_text, find_match, find_string,
}

abbrev pub Word : Regex → Text → Type 0
Word (one p) w = (c : ℕ) × (w ≡ c ∷ []) × (p c ≡ true)
Word (many p) w = all p w ≡ true
Word (maybe p) w = (w ≡ []) ⊎ ((c : ℕ) × (w ≡ c ∷ []) × (p c ≡ true))
Word start w = w ≡ []
Word boundary w = w ≡ []
Word (seq a b) w = (u v : Text) × (w ≡ u ++ v) × Word a u × Word b v
Word (alt a b) w = Word a w ⊎ Word b w

append_assoc : (u v t : Text) → (u ++ v) ++ t ≡ u ++ (v ++ t)
append_assoc [] v t = refl
append_assoc (c ∷ u) v t = ap (λ r. c ∷ r) (append_assoc u v t)

module _ {A : Type 0} where
  or_try-some : (x y : Option A) {a : A} → or_try x y ≡ some a → (x ≡ some a) ⊎ (y ≡ some a)
  or_try-some none y h = inr h
  or_try-some (some b) y h = inl h

  -- A run that succeeds has taken a part of the text off its front, and gone on behind it.
  abbrev Taken : (Text → Type 0) → Text → (Option ℕ → Text → Option A) → A → Type 0
  Taken L s k a = (w : Text) × (q : Option ℕ) × (t : Text) × (s ≡ w ++ t) × L w × (k q t ≡ some a)

  run_many-Taken :
      (p : ℕ → Bool) (b : Option ℕ) (s : Text) (k : Option ℕ → Text → Option A) (a : A)
      → run_many p b s k ≡ some a
      → Taken (λ w. all p w ≡ true) s k a
  unfolding run_many
  run_many-Taken p b [] k a h = ([], b, [], refl, refl, h)
  run_many-Taken p b (c ∷ s) k a h = elim (Bool-cases (p c)) [
    | inr n ↦ ([], b, c ∷ s, refl, refl, rw n at h)
    | inl y ↦ elim (or_try-some (run_many p (some c) s k) (k b (c ∷ s)) (rw y at h)) [
      | inr g ↦ ([], b, c ∷ s, refl, refl, g)
      | inl g ↦
          let (w, q, t, parts, good, goes) = run_many-Taken p (some c) s k a g in
          (c ∷ w, q, t, ap (λ r. c ∷ r) parts, ground arith, goes)
    ]
  ]

  pub run-Taken :
      (r : Regex) (b : Option ℕ) (s : Text) (k : Option ℕ → Text → Option A) (a : A)
      → run r b s k ≡ some a
      → Taken (Word r) s k a
  unfolding run
  run-Taken (one p) b [] k a h = absurd cc
  run-Taken (one p) b (c ∷ s) k a h = elim (Bool-cases (p c)) [
    | inl y ↦ (c ∷ [], some c, s, refl, (c, refl, y), rw y at h)
    | inr n ↦ absurd (let z : Path (Option A) none (some a) = rw n at h in cc)
  ]
  run-Taken (many p) b s k a h = run_many-Taken p b s k a h
  run-Taken (maybe p) b [] k a h = ([], b, [], refl, inl refl, h)
  run-Taken (maybe p) b (c ∷ s) k a h = elim (Bool-cases (p c)) [
    | inr n ↦ ([], b, c ∷ s, refl, inl refl, rw n at h)
    | inl y ↦ elim (or_try-some (k (some c) s) (k b (c ∷ s)) (rw y at h)) [
      | inl g ↦ (c ∷ [], some c, s, refl, inr (c, refl, y), g)
      | inr g ↦ ([], b, c ∷ s, refl, inl refl, g)
    ]
  ]
  run-Taken start none s k a h = ([], none, s, refl, refl, h)
  run-Taken start (some c) s k a h = absurd cc
  run-Taken boundary b s k a h = elim (Bool-cases (is_boundary b s)) [
    | inl y ↦ ([], b, s, refl, refl, rw y at h)
    | inr n ↦ absurd (let z : Path (Option A) none (some a) = rw n at h in cc)
  ]
  run-Taken (seq x y) b s k a h =
      let (u, m, t, front, good, goes) = run-Taken x b s (λ mid v. run y mid v k) a h in
      let (v, q, t', behind, good', goes') = run-Taken y m t k a goes in
      (
        u ++ v,
        q,
        t',
        front ∙ ap (λ r. u ++ r) behind ∙ sym (append_assoc u v t'),
        (u, v, refl, good, good'),
        goes',
      )
  run-Taken (alt x y) b s k a h = elim (or_try-some (run x b s k) (run y b s k) h) [
    | inl g ↦
        let (w, q, t, parts, good, goes) = run-Taken x b s k a g in (w, q, t, parts, inl good, goes)
    | inr g ↦
        let (w, q, t, parts, good, goes) = run-Taken y b s k a g in (w, q, t, parts, inr good, goes)
  ]

take-front : (w t : Text) → take (length (w ++ t) - length t) (w ++ t) ≡ w
take-front [] t = take-none (length t - length t) t (omega arith)
  where
    take-none : (n : ℕ) (s : Text) → n ≡ 0 → take n s ≡ []
    take-none zero s h = refl
    take-none (suc n) s h = absurd (omega (arith, h))
take-front (c ∷ w) t =
    let n : suc (length (w ++ t)) - length t ≡ suc (length (w ++ t) - length t) =
      omega (arith, length-append w t) in
    subst (λ m. take m (c ∷ w ++ t) ≡ c ∷ w) (sym n) (ap (λ r. c ∷ r) (take-front w t))

match_here-Word :
    (r : Regex) (b : Option ℕ) (s : Text) (m : Match) → match_here r b s ≡ some m → Word r m.matched
unfolding match_here
match_here-Word r b s m h =
    let (w, q, t, parts, good, made) =
      run-Taken r b s
        (λ last t. some (record { matched = take (length s - length t) s; last = last; rest = t }))
        m h in
    let front : take (length s - length t) s ≡ w =
      subst (λ x. take (length x - length t) x ≡ w) (sym parts) (take-front w t) in
    let is_m : record { matched = take (length s - length t) s; last = q; rest = t } ≡ m =
      cc made in
    subst (Word r) (sym front ∙ ap (λ (x : Match). x.matched) is_m) good

find_match-Word :
    (r : Regex) (b : Option ℕ) (s : Text) (m : Match) → find_match r b s ≡ some m → Word r m.matched
unfolding find_match
find_match-Word r b [] m h = match_here-Word r b [] m h
find_match-Word r b (c ∷ s) m h =
    elim (or_try-some (match_here r b (c ∷ s)) (find_match r (some c) s) h) [
      | inl g ↦ match_here-Word r b (c ∷ s) m g
      | inr g ↦ find_match-Word r (some c) s m g
    ]

-- What is found is a text of the pattern.
pub find_string-Word : (r : Regex) (s : Text) → (find_string r s ≡ []) ⊎ Word r (find_string r s)
unfolding find_string
find_string-Word r s = elim (Option-cases (find_match r none s)) [
  | inl gone ↦ inl (rw gone refl)
  | inr (m, found) ↦
      inr (subst (λ o. Word r (matched_text o)) (sym found) (find_match-Word r none s m found))
]
