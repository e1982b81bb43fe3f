-- ===== src/Person/Resolve/Laws.antt =====
-- What a resolve run that succeeds has done with the records that it listed.
use kd_server.Common.{
  ℕ, zero, suc, ◌+◌, ◌≤◌, ◌≡◌, refl, sym, ap, ◌∙◌, ◌⊎◌, inl, inr, Bool, true, false, not, ◌&&◌,
  List, arith, length, all, keep, All, All-map, Result, ok, message,
}
use kd_server.Text.{Text, same, is_blank, Casing}
use kd_server.Mongo.{Collection}
use kd_server.Mongo.Laws.{IsMongo, after-eq-ok, require-eq-ok}
use kd_server.Time.{Time}
use kd_server.Ingest.{RawRecord, tenant_required}
use kd_server.Format.{ℤ, pos, negsuc}
use kd_server.Person.{
  codes, Person, Link, raw_status_pending, Registry, on_raw, or_hundred, one_of, list_raw_by_status,
}
use kd_server.Person.Laws.{settled_at, raw_of, link_of}
use kd_server.Person.Resolve.{
  ResolveResult, Draws, Tally, no_tally, result_of, resolve_all, review_all, resolve,
}
use mathlib.Core.Path.{subst}
use kd_server.Person.Listing.{Listed, list_raw_by_status-page}
use kd_server.Person.Resolve.Kept.{Extends, Extends-trans, Linked, Linked-kept, nameless, Sorted}
use kd_server.Person.Resolve.Loop.{resolve_all-Sorted, review_all-Kept}

or_hundred_idem : (limit : ℤ) → or_hundred (pos (or_hundred limit)) ≡ or_hundred limit
or_hundred_idem (pos zero) = refl
or_hundred_idem (pos (suc n)) = refl
or_hundred_idem (negsuc n) = refl

module _ ⦃u : Casing⦄ {P L R : Type 0} (people : Collection P Person) (links : Collection L Link)
    (raw : Collection R RawRecord) where
  -- A run that succeeds, in its parts: the listing, the loop and the records put aside.
  resolve-parts :
      (store : Bool) (tenant : Text) (batch_size : ℤ) (draws : ℕ → Draws) (reviewed_at : Time)
      (s s' : Registry P L R) (r : ResolveResult)
      → resolve people links raw store tenant batch_size draws reviewed_at s ≡ (s', ok r)
      → (ds : List RawRecord) × (t : Tally) × (s1 s2 : Registry P L R) × (list_raw_by_status raw
            tenant raw_status_pending
            (pos (or_hundred batch_size))
            s.raw
          ≡ (s1.raw, ok ds))
        × (s1 ≡ record s { raw = s1.raw })
        × (resolve_all people links raw tenant draws 0 ds no_tally s1 ≡ (s2, ok t))
        × (review_all people links raw tenant t.review_ids reviewed_at s2 ≡ (s', ok tt))
        × (result_of ds t ≡ r)
  unfolding resolve
  resolve-parts store tenant batch_size draws reviewed_at s s' r h =
      let (_, h1) = require-eq-ok store (message "services: resolve store not configured") s _ h in
      let (_, h2) = require-eq-ok (not (is_blank tenant)) tenant_required s _ h1 in
      let one : Registry P L R × Result (List RawRecord) =
        on_raw (list_raw_by_status raw tenant raw_status_pending (pos (or_hundred batch_size))) s in
      let (ds, listed, h3) = after-eq-ok one _ h2 in
      let two : Registry P L R × Result Tally =
        resolve_all people links raw tenant draws 0 ds no_tally one.0 in
      let (t, looped, h4) = after-eq-ok two _ h3 in
      let three : Registry P L R × Result (Unit {0}) =
        review_all people links raw tenant t.review_ids reviewed_at two.0 in
      let (_, reviewed, h5) = after-eq-ok three _ h4 in
      let state : three.0 ≡ s' = ap (λ (x : Registry P L R × Result ResolveResult). x.0) h5 in
      let answer : Path (Result ResolveResult) (ok (result_of ds t)) (ok r) =
        ap (λ (x : Registry P L R × Result ResolveResult). x.1) h5 in
      (
        ds,
        t,
        one.0,
        two.0,
        ap (λ x. (one.0.raw, x)) listed,
        refl,
        ap (λ x. (two.0, x)) looped,
        ap (λ x. (x, three.1)) state ∙ ap (λ x. (s', x)) reviewed,
        cc answer,
      )

  -- Behind the last update, a record that was put aside waits no more either.
  finished :
      (tenant : Text) (t : Tally) (s s' : Registry P L R)
      → Extends people links raw tenant s s'
      → ((id : Text)
          → one_of t.review_ids id ≡ true
          → all (settled_at tenant id) (raw.docs s'.raw) ≡ true)
      → (d : RawRecord) → Sorted people links raw tenant t s d
      → (all (settled_at tenant d.id) (raw.docs s'.raw) ≡ true)
        × ((nameless d ≡ true) ⊎ Linked people links raw tenant d s')
  finished tenant t s s' extended settled d (inl (y, m)) = (settled d.id m, inl y)
  finished tenant t s s' extended settled d (inr (n, linked)) =
      let there : Linked people links raw tenant d s' =
        Linked-kept people links raw tenant d s s' extended linked in
      (there.0, inr there)

  module _ (mongo_people : IsMongo people) (mongo_links : IsMongo links)
      (mongo_raw : IsMongo raw) where
    -- A run that succeeds has gone through the first of the tenant's stored records with the status
    -- "pending", in some order: as many as the batch size says, or 100 without one, and all if they are
    -- fewer. None of them waits any more; for each that has an identifier, there is a link with its source
    -- and its external id that leads to a person of the tenant.
    pub resolve-Linked :
        (store : Bool) (tenant : Text) (batch_size : ℤ) (draws : ℕ → Draws) (reviewed_at : Time)
        (s s' : Registry P L R) (r : ResolveResult)
        → resolve people links raw store tenant batch_size draws reviewed_at s ≡ (s', ok r)
        → (ds : List RawRecord) × Listed tenant
            (codes "pending")
            (or_hundred batch_size)
            (raw.docs s.raw)
            ds
          × ((list_raw_by_status raw tenant raw_status_pending
                (pos (or_hundred batch_size))
                s.raw).1
              ≡ ok ds)
          × (all (λ d. same d.tenant_id tenant && same d.status raw_status_pending) ds ≡ true)
          × (length ds ≤ or_hundred batch_size)
          × All
              (λ d.
                (all (settled_at tenant d.id) (raw.docs s'.raw) ≡ true)
                × ((nameless d ≡ true) ⊎ Linked people links raw tenant d s'))
              ds
    resolve-Linked store tenant batch_size draws reviewed_at s s' r h =
        let (ds, t, s1, s2, listed, _, looped, reviewed, _) =
          resolve-parts store tenant batch_size draws reviewed_at s s' r h in
        let (kept, bounded, _, first_ones) =
          list_raw_by_status-page raw mongo_raw tenant raw_status_pending
            (pos (or_hundred batch_size)) s.raw s1.raw ds listed in
        let (_, sorted, _, _, _) =
          resolve_all-Sorted people links raw tenant mongo_people mongo_links mongo_raw draws 0 ds
            no_tally t s1 s2 looped in
        let (extended, settled) =
          review_all-Kept people links raw tenant mongo_people mongo_links mongo_raw t.review_ids
            reviewed_at s2 s' reviewed in
        (
          ds,
          subst (λ n. Listed tenant (codes "pending") n (raw.docs s.raw) ds)
              (or_hundred_idem batch_size) first_ones,
          ap (λ (x : R × Result (List RawRecord)). x.1) listed,
          kept,
          subst (λ n. length ds ≤ n) (or_hundred_idem batch_size) bounded,
          All-map (finished tenant t s2 s' extended settled) ds sorted,
        )

    -- A run that succeeds counts every record that it listed once: those without an identifier as in need
    -- of review, all others as resolved, and none as skipped.
    pub resolve-counts :
        (store : Bool) (tenant : Text) (batch_size : ℤ) (draws : ℕ → Draws) (reviewed_at : Time)
        (s s' : Registry P L R) (r : ResolveResult)
        → resolve people links raw store tenant batch_size draws reviewed_at s ≡ (s', ok r)
        → (ds : List RawRecord) × ((list_raw_by_status raw tenant raw_status_pending
              (pos (or_hundred batch_size))
              s.raw).1
            ≡ ok ds)
          × (r.resolved + r.needs_review ≡ length ds)
          × (r.needs_review ≡ length (keep nameless ds))
          × (r.skipped ≡ 0)
    resolve-counts store tenant batch_size draws reviewed_at s s' r h =
        let (ds, t, s1, s2, listed, _, looped, _, result) =
          resolve-parts store tenant batch_size draws reviewed_at s s' r h in
        let (_, _, _, total, aside) =
          resolve_all-Sorted people links raw tenant mongo_people mongo_links mongo_raw draws 0 ds
            no_tally t s1 s2 looped in
        (
          ds,
          ap (λ (x : R × Result (List RawRecord)). x.1) listed,
          subst (λ (x : ResolveResult). x.resolved + x.needs_review ≡ length ds) result
              (omega (arith, total)),
          subst (λ (x : ResolveResult). x.needs_review ≡ length (keep nameless ds)) result
              (omega (arith, aside)),
          subst (λ (x : ResolveResult). x.skipped ≡ 0) result (omega (arith, total)),
        )

    resolve-Extends :
        (store : Bool) (tenant : Text) (batch_size : ℤ) (draws : ℕ → Draws) (reviewed_at : Time)
        (s s' : Registry P L R) (r : ResolveResult)
        → resolve people links raw store tenant batch_size draws reviewed_at s ≡ (s', ok r)
        → Extends people links raw tenant s s'
    resolve-Extends store tenant batch_size draws reviewed_at s s' r h =
        let (ds, t, s1, s2, listed, first_state, looped, reviewed, _) =
          resolve-parts store tenant batch_size draws reviewed_at s s' r h in
        let (_, _, unread, _) =
          list_raw_by_status-page raw mongo_raw tenant raw_status_pending
            (pos (or_hundred batch_size)) s.raw s1.raw ds listed in
        let start : s ≡ s1 = ap (λ x. record s { raw = x }) unread ∙ sym first_state in
        let (looped_kept, _, _, _, _) =
          resolve_all-Sorted people links raw tenant mongo_people mongo_links mongo_raw draws 0 ds
            no_tally t s1 s2 looped in
        let (reviewed_kept, _) =
          review_all-Kept people links raw tenant mongo_people mongo_links mongo_raw t.review_ids
            reviewed_at s2 s' reviewed in
        subst (λ x. Extends people links raw tenant x s') (sym start)
          (Extends-trans people links raw tenant s1 s2 s' looped_kept reviewed_kept)

    -- A run that succeeds leaves the links and the raw records of every other tenant as they were, in their
    -- order.
    pub resolve-others :
        (store : Bool) (tenant : Text) (batch_size : ℤ) (draws : ℕ → Draws) (reviewed_at : Time)
        (s s' : Registry P L R) (r : ResolveResult) (t : Text)
        → resolve people links raw store tenant batch_size draws reviewed_at s ≡ (s', ok r)
        → same tenant t ≡ false
        → (keep (link_of t) (links.docs s'.links) ≡ keep (link_of t) (links.docs s.links))
          × (keep (raw_of t) (raw.docs s'.raw) ≡ keep (raw_of t) (raw.docs s.raw))
    resolve-others store tenant batch_size draws reviewed_at s s' r t h n =
        let kept = resolve-Extends store tenant batch_size draws reviewed_at s s' r h in
        (kept.other_links t n, kept.other_raw t n)
