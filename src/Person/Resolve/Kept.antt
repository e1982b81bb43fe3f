-- ===== src/Person/Resolve/Kept.antt =====
-- What a record with an identifier leaves behind, and what every step of a resolve run keeps.
use kd_server.Common.{
  suc, ◌≡◌, refl, ap, ◌∙◌, ◌⊎◌, Bool, true, false, [], ◌∷◌, arith, any, all, keep, Result, ok,
}
use kd_server.Text.{Text, same, Casing, same_refl}
use kd_server.Mongo.{Collection}
use kd_server.Mongo.Laws.{IsMongo, after-eq-ok}
use kd_server.Ingest.{RawRecord}
use kd_server.Person.{
  Person, Link, PersonIdentifiers, raw_status_resolved, is_anonymous, is_link, upsert_link,
  Registry, on_people, on_links, on_raw, one_of, update_raw_status,
}
use kd_server.Person.Laws.{
  is_person, settled_at, raw_of, link_of, upsert_link-Kept, update_raw_status-Kept,
}
use kd_server.Person.Resolve.{
  link_external_id, Draws, Tally, link_external_id, extract_identifiers, match_person,
  resolve_known,
}
use mathlib.Core.Path.{subst}
use kd_server.Person.Resolve.Steps.{match_person-Kept}

-- A record without an identifier.
module _ ⦃u : Casing⦄ where
  abbrev pub nameless : RawRecord → Bool
  nameless d = is_anonymous (extract_identifiers d.payload)

-- What a part of a run keeps, from one state to the next.
pub record Extends {P L R : Type 0} (people : Collection P Person) (links : Collection L Link)
    (raw : Collection R RawRecord) (tenant : Text) (s s' : Registry P L R) : Type 0 where
  pub people_kept :
      (t k : Text)
      → any (is_person t k) (people.docs s.people) ≡ true
      → any (is_person t k) (people.docs s'.people) ≡ true
  pub links_kept :
      (t k c e : Text)
      → any (is_link t k c e) (links.docs s.links) ≡ true
      → any (is_link t k c e) (links.docs s'.links) ≡ true
  pub settled_kept :
      (t id : Text)
      → all (settled_at t id) (raw.docs s.raw) ≡ true
      → all (settled_at t id) (raw.docs s'.raw) ≡ true
  -- The links and the raw records of another tenant are as they were.
  pub other_links :
      (t : Text)
      → same tenant t ≡ false
      → keep (link_of t) (links.docs s'.links) ≡ keep (link_of t) (links.docs s.links)
  pub other_raw :
      (t : Text)
      → same tenant t ≡ false
      → keep (raw_of t) (raw.docs s'.raw) ≡ keep (raw_of t) (raw.docs s.raw)

module _ {P L R : Type 0} (people : Collection P Person) (links : Collection L Link)
    (raw : Collection R RawRecord) (tenant : Text) where
  pub Extends-refl : (s : Registry P L R) → Extends people links raw tenant s s
  Extends-refl s = record {
    people_kept = λ t k h. h;
    links_kept = λ t k c e h. h;
    settled_kept = λ t id h. h;
    other_links = λ t n. refl;
    other_raw = λ t n. refl;
  }

  pub Extends-trans :
      (s t v : Registry P L R)
      → Extends people links raw tenant s t
      → Extends people links raw tenant t v
      → Extends people links raw tenant s v
  Extends-trans s t v a b = record {
    people_kept = λ x k h. b.people_kept x k (a.people_kept x k h);
    links_kept = λ x k c e h. b.links_kept x k c e (a.links_kept x k c e h);
    settled_kept = λ x id h. b.settled_kept x id (a.settled_kept x id h);
    other_links = λ x n. b.other_links x n ∙ a.other_links x n;
    other_raw = λ x n. b.other_raw x n ∙ a.other_raw x n;
  }

  -- A record with an identifier: it waits no more, and a link leads from it to a person of the tenant.
  abbrev pub Linked : RawRecord → Registry P L R → Type 0
  Linked d s =
      (all (settled_at tenant d.id) (raw.docs s.raw) ≡ true)
      × (person : Text) × (any (is_person tenant person) (people.docs s.people) ≡ true)
      × (any (is_link tenant person d.source_slug (link_external_id d)) (links.docs s.links) ≡ true)

  pub Linked-kept :
      (d : RawRecord) (s s' : Registry P L R)
      → Extends people links raw tenant s s'
      → Linked d s
      → Linked d s'
  Linked-kept d s s' x (settled, person, there, linked) = (
    x.settled_kept tenant d.id settled,
    person,
    x.people_kept tenant person there,
    x.links_kept tenant person d.source_slug (link_external_id d) linked,
  )

  module _ ⦃u : Casing⦄ where
    -- In the loop: put aside, or linked.
    abbrev pub Sorted : Tally → Registry P L R → RawRecord → Type 0
    Sorted tally s d =
        ((nameless d ≡ true) × (one_of tally.review_ids d.id ≡ true))
        ⊎ ((nameless d ≡ false) × Linked d s)

    module _ (mongo_people : IsMongo people) (mongo_links : IsMongo links)
        (mongo_raw : IsMongo raw) where
      pub resolve_known-Linked :
          (i : PersonIdentifiers) (draws : Draws) (d : RawRecord) (tally tally' : Tally)
          (s s' : Registry P L R)
          → resolve_known people links raw tenant i draws d tally s ≡ (s', ok tally')
          → Extends people links raw tenant s s'
            × Linked d s'
            × (tally' ≡ record tally { resolved = suc tally.resolved })
      unfolding resolve_known
      resolve_known-Linked i draws d tally tally' s s' h =
          let one : Registry P L R × Result Person =
            on_people (match_person people tenant i d.payload draws) s in
          let (p, matched_ok, h1) = after-eq-ok one _ h in
          let two : Registry P L R × Result (Unit {0}) =
            on_links
              (upsert_link links tenant p.person_id d.source_slug (link_external_id d) d.payload
                draws.linked_at draws.link_object)
              one.0 in
          let (_, linked_ok, h2) = after-eq-ok two _ h1 in
          let three : Registry P L R × Result (Unit {0}) =
            on_raw
              (update_raw_status raw tenant (d.id ∷ []) raw_status_resolved p.person_id
                draws.marked_at)
              two.0 in
          let (_, marked_ok, h3) = after-eq-ok three _ h2 in
          let state : three.0 ≡ s' = ap (λ (x : Registry P L R × Result Tally). x.0) h3 in
          let answer : Path (Result Tally) (ok (record tally { resolved = suc tally.resolved }))
              (ok tally') =
            ap (λ (x : Registry P L R × Result Tally). x.1) h3 in
          let (person_there, people_kept) =
            match_person-Kept people mongo_people tenant i d.payload draws s.people one.0.people p
              (ap (λ x. (one.0.people, x)) matched_ok) in
          let (link_there, links_kept, other_links) =
            upsert_link-Kept links mongo_links tenant p.person_id d.source_slug (link_external_id d)
              d.payload draws.linked_at draws.link_object s.links two.0.links
              (ap (λ x. (two.0.links, x)) linked_ok) in
          let (settled, settled_kept, other_raw) =
            update_raw_status-Kept raw mongo_raw tenant (d.id ∷ []) raw_status_resolved p.person_id
              draws.marked_at s.raw three.0.raw refl (ap (λ x. (three.0.raw, x)) marked_ok) in
          let whole : Extends people links raw tenant s three.0 = record {
            people_kept = people_kept;
            links_kept = links_kept;
            settled_kept = settled_kept;
            other_links = other_links;
            other_raw = other_raw;
          } in
          let result : Linked d three.0 = (
            settled d.id (ground (arith, same_refl d.id)),
            p.person_id,
            person_there,
            link_there,
          ) in
          (
            subst (Extends people links raw tenant s) state whole,
            subst (Linked d) state result,
            cc answer,
          )
