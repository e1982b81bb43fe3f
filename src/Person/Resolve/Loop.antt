-- ===== src/Person/Resolve/Loop.antt =====
-- The loop of a resolve run: what it has done with each record, and its counts.
use kd_server.Common.{
  ℕ, suc, ◌+◌, ◌≡◌, refl, sym, ap, inl, inr, true, List, [], ◌∷◌, ◌++◌, arith, Bool-cases, length,
  all, keep, All, Result, ok, any-append,
}
use kd_server.Text.{Text, same, Casing, same_refl}
use kd_server.Mongo.{pure, Collection}
use kd_server.Mongo.Laws.{IsMongo, after-eq-ok}
use kd_server.Time.{Time}
use kd_server.Tenant.{ObjectId}
use kd_server.Ingest.{RawRecord}
use kd_server.Person.{
  Person, Link, PersonIdentifiers, raw_status_needs_review, is_anonymous, Registry, one_of,
  update_raw_status,
}
use kd_server.Person.Laws.{settled_at, update_raw_status-Kept}
use kd_server.Person.Resolve.{
  Draws, Tally, to_review, extract_identifiers, resolve_known, resolve_record, resolve_all,
  review_all,
}
use mathlib.Core.Path.{subst}
use kd_server.Person.Resolve.Kept.{
  Extends, Extends-refl, Extends-trans, Linked-kept, nameless, Sorted, resolve_known-Linked,
}

-- The counts of a run so far.
abbrev pub counted : Tally → ℕ
counted t = t.resolved + t.needs_review

one_of-left : (xs ys : List Text) (i : Text) → one_of xs i ≡ true → one_of (xs ++ ys) i ≡ true
one_of-left xs ys i h = rw (any-append (same i) xs ys, h) refl

module _ ⦃u : Casing⦄ where
  aside_sum :
      (d : RawRecord) (ds : List RawRecord) (a b c : ℕ)
      → b ≡ a + length (keep nameless (d ∷ []))
      → c ≡ b + length (keep nameless ds)
      → c ≡ a + length (keep nameless (d ∷ ds))
  aside_sum d ds a b c p q = elim (Bool-cases (nameless d)) [
    | inl y ↦ rw y (let k : b ≡ a + 1 = rw y at p in omega (arith, k, q))
    | inr n ↦ rw n (let k : b ≡ a + 0 = rw n at p in omega (arith, k, q))
  ]

module _ {P L R : Type 0} (people : Collection P Person) (links : Collection L Link)
    (raw : Collection R RawRecord) (tenant : Text) ⦃u : Casing⦄ (mongo_people : IsMongo people)
    (mongo_links : IsMongo links) (mongo_raw : IsMongo raw) where
  -- The step of one record.
  resolve_record-Sorted :
      (draws : Draws) (d : RawRecord) (t t' : Tally) (s s' : Registry P L R)
      → resolve_record people links raw tenant draws d t s ≡ (s', ok t')
      → Extends people links raw tenant s s'
        × Sorted people links raw tenant t' s' d
        × ((i : Text) → one_of t.review_ids i ≡ true → one_of t'.review_ids i ≡ true)
        × (counted t' ≡ suc (counted t))
        × (t'.needs_review ≡ t.needs_review + length (keep nameless (d ∷ [])))
  unfolding resolve_record
  resolve_record-Sorted draws d t t' s s' h =
      let i : PersonIdentifiers = extract_identifiers d.payload in
      elim (Bool-cases (is_anonymous i)) [
        | inl y ↦
            let h1 : pure {S = Registry P L R} (to_review d t) s ≡ (s', ok t') = rw y at h in
            let state : s ≡ s' = ap (λ (x : Registry P L R × Result Tally). x.0) h1 in
            let answer : Path (Result Tally) (ok (to_review d t)) (ok t') =
              ap (λ (x : Registry P L R × Result Tally). x.1) h1 in
            let tally : to_review d t ≡ t' = cc answer in
            let here : one_of (t.review_ids ++ d.id ∷ []) d.id ≡ true =
              rw (any-append (same d.id) t.review_ids (d.id ∷ []), same_refl d.id) (ground arith) in
            (
              subst (Extends people links raw tenant s) state
                  (Extends-refl people links raw tenant s),
              inl (y, subst (λ (x : Tally). one_of x.review_ids d.id ≡ true) tally here),
              λ j m.
                  subst (λ (x : Tally). one_of x.review_ids j ≡ true) tally
                    (one_of-left t.review_ids (d.id ∷ []) j m),
              subst (λ (x : Tally). counted x ≡ suc (counted t)) tally (omega arith),
              subst
                  (λ (x : Tally). x.needs_review ≡ t.needs_review + length (keep nameless (d ∷ [])))
                  tally (rw y (omega arith)),
            )
        | inr n ↦
            let h1 : resolve_known people links raw tenant i draws d t s ≡ (s', ok t') =
              rw n at h in
            let (extended, linked, tally) =
              resolve_known-Linked people links raw tenant mongo_people mongo_links mongo_raw i
                draws d t t' s s' h1 in
            (
              extended,
              inr (n, linked),
              λ j m. subst (λ (x : Tally). one_of x.review_ids j ≡ true) (sym tally) m,
              subst (λ (x : Tally). counted x ≡ suc (counted t)) (sym tally) (omega arith),
              subst
                  (λ (x : Tally). x.needs_review ≡ t.needs_review + length (keep nameless (d ∷ [])))
                  (sym tally) (rw n (omega arith)),
            )
      ]

  Sorted-kept :
      (d : RawRecord) (t t' : Tally) (s s' : Registry P L R)
      → Extends people links raw tenant s s'
      → ((i : Text) → one_of t.review_ids i ≡ true → one_of t'.review_ids i ≡ true)
      → Sorted people links raw tenant t s d
      → Sorted people links raw tenant t' s' d
  Sorted-kept d t t' s s' x ids (inl (y, m)) = inl (y, ids d.id m)
  Sorted-kept d t t' s s' x ids (inr (n, linked)) =
      inr (n, Linked-kept people links raw tenant d s s' x linked)

  pub resolve_all-Sorted :
      (draws : ℕ → Draws) (i : ℕ) (ds : List RawRecord) (t t' : Tally) (s s' : Registry P L R)
      → resolve_all people links raw tenant draws i ds t s ≡ (s', ok t')
      → Extends people links raw tenant s s'
        × All (Sorted people links raw tenant t' s') ds
        × ((i : Text) → one_of t.review_ids i ≡ true → one_of t'.review_ids i ≡ true)
        × (counted t' ≡ counted t + length ds)
        × (t'.needs_review ≡ t.needs_review + length (keep nameless ds))
  unfolding resolve_all
  resolve_all-Sorted draws i [] t t' s s' h =
      let state : s ≡ s' = ap (λ (x : Registry P L R × Result Tally). x.0) h in
      let answer : Path (Result Tally) (ok t) (ok t') =
        ap (λ (x : Registry P L R × Result Tally). x.1) h in
      let tally : t ≡ t' = cc answer in
      (
        subst (Extends people links raw tenant s) state (Extends-refl people links raw tenant s),
        tt,
        λ j m. subst (λ (x : Tally). one_of x.review_ids j ≡ true) tally m,
        subst (λ (x : Tally). counted x ≡ counted t + 0) tally (omega arith),
        subst (λ (x : Tally). x.needs_review ≡ t.needs_review + 0) tally (omega arith),
      )
  resolve_all-Sorted draws i (d ∷ ds) t t' s s' h =
      let one : Registry P L R × Result Tally =
        resolve_record people links raw tenant (draws i) d t s in
      let (t1, first_ok, h1) =
        after-eq-ok one (resolve_all people links raw tenant draws (suc i) ds) h in
      let (extended, sorted, ids, count, aside) =
        resolve_record-Sorted (draws i) d t t1 s one.0 (ap (λ x. (one.0, x)) first_ok) in
      let (later, rest, later_ids, later_count, later_aside) =
        resolve_all-Sorted draws (suc i) ds t1 t' one.0 s' h1 in
      (
        Extends-trans people links raw tenant s one.0 s' extended later,
        (Sorted-kept d t1 t' one.0 s' later later_ids sorted, rest),
        λ j m. later_ids j (ids j m),
        omega (arith, count, later_count),
        aside_sum d ds t.needs_review t1.needs_review t'.needs_review aside later_aside,
      )

  pub review_all-Kept :
      (ids : List ObjectId) (reviewed_at : Time) (s s' : Registry P L R)
      → review_all people links raw tenant ids reviewed_at s ≡ (s', ok tt)
      → Extends people links raw tenant s s'
        × ((id : Text) → one_of ids id ≡ true → all (settled_at tenant id) (raw.docs s'.raw) ≡ true)
  review_all-Kept [] reviewed_at s s' h =
      let state : s ≡ s' = ap (λ (x : Registry P L R × Result (Unit {0})). x.0) h in
      (
        subst (Extends people links raw tenant s) state (Extends-refl people links raw tenant s),
        λ id m. absurd (ground arith),
      )
  review_all-Kept (j ∷ js) reviewed_at s s' h =
      let one : R × Result (Unit {0}) =
        update_raw_status raw tenant (j ∷ js) raw_status_needs_review [] reviewed_at s.raw in
      let state : record s { raw = one.0 } ≡ s' =
        ap (λ (x : Registry P L R × Result (Unit {0})). x.0) h in
      let marked_ok : one.1 ≡ ok tt = ap (λ (x : Registry P L R × Result (Unit {0})). x.1) h in
      let (settled, settled_kept, other_raw) =
        update_raw_status-Kept raw mongo_raw tenant (j ∷ js) raw_status_needs_review [] reviewed_at
          s.raw one.0 refl (ap (λ x. (one.0, x)) marked_ok) in
      let whole : Extends people links raw tenant s (record s { raw = one.0 }) = record {
        people_kept = λ t k h. h;
        links_kept = λ t k c e h. h;
        settled_kept = settled_kept;
        other_links = λ t n. refl;
        other_raw = other_raw;
      } in
      (
        subst (Extends people links raw tenant s) state whole,
        λ id m.
            subst (λ (x : Registry P L R). all (settled_at tenant id) (raw.docs x.raw) ≡ true) state
              (settled id m),
      )
