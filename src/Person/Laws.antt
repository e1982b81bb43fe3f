-- ===== src/Person/Laws.antt =====
-- What the writes of the persons' store keep, and what they leave.
use kd_server.Common.{
  ℕ, ◌≡◌, sym, ap, inl, inr, Bool, true, false, not, ◌&&◌, ◌||◌, List, [], ◌∷◌, ◌++◌, map, arith,
  if◌then◌else◌, Bool-cases, any, all, keep, Result, ok, message, wrap, keep-map, all-map,
  all-mapped,
}
use kd_server.Text.{Text, same, is_blank, same_iff, same_refl}
use kd_server.Mongo.{writing, Collection}
use kd_server.Mongo.Laws.{IsMongo, after-eq-ok, require-eq-ok, on_error-eq-ok}
use kd_server.Json.{Json}
use kd_server.Time.{Time}
use kd_server.Tenant.{ObjectId, not_configured}
use kd_server.Ingest.{RawRecord}
use kd_server.Person.{
  Person, Link, PersonIdentifiers, raw_status_resolved, raw_status_needs_review, set_identifiers,
  create_person, update_person_identifiers, is_link, upsert_link, one_of, set_status, is_raw,
  update_raw_status,
}
use kd_server.Mongo.Kept.{Upserted-keep, Upserted-any, Upserted-here, Upserted, Updated-any}
use mathlib.Core.Path.{subst}

abbrev pub is_person : Text → Text → Person → Bool
is_person tenant person p = same p.tenant_id tenant && same p.person_id person

-- A raw record that waits no more.
abbrev pub is_settled : RawRecord → Bool
is_settled d = same d.status raw_status_resolved || same d.status raw_status_needs_review

-- If it is the raw record of the id, it waits no more.
abbrev pub settled_at : Text → ObjectId → RawRecord → Bool
settled_at tenant id d = not (is_raw tenant (id ∷ []) d) || is_settled d

abbrev pub raw_of : Text → RawRecord → Bool
raw_of tenant d = same d.tenant_id tenant

abbrev pub link_of : Text → Link → Bool
link_of tenant l = same l.tenant_id tenant

-- Texts that are the same as one another.
pub same_trans : (s t v : Text) → same s t ≡ true → same s v ≡ true → same t v ≡ true
same_trans s t v h k = let q : s ≡ t = (same_iff s t).0 h in rw q at k

module _ {P : Type 0} (people : Collection P Person) (mongo : IsMongo people) where
  pub update_person_identifiers-kept :
      (person : Text) (i : PersonIdentifiers) (now : Time) (p p' : P)
      → update_person_identifiers people person i now p ≡ (p', ok tt)
      → (t k : Text) → any (is_person t k) (people.docs p) ≡ true
      → any (is_person t k) (people.docs p') ≡ true
  unfolding update_person_identifiers set_identifiers
  update_person_identifiers-kept person i now p p' h t k was =
      let (_, h1) = require-eq-ok people.configured not_configured p _ h in
      let one : P × Result ℕ =
        writing (wrap "store: update person identifiers")
          (people.update_one (λ q. same q.person_id person) (set_identifiers i now)) p in
      let (n, updated, h2) = after-eq-ok one _ h1 in
      let state : one.0 ≡ p' = ap (λ (x : P × Result (Unit {0})). x.0) h2 in
      let now_there : any (is_person t k) (people.docs one.0) ≡ true =
        Updated-any (is_person t k) (λ q _ yes_. yes_)
          (mongo.update_one_done _ _ p n
            (on_error-eq-ok (wrap "store: update person identifiers") _ updated))
          was in
      subst (λ x. any (is_person t k) (people.docs x) ≡ true) state now_there

  pub create_person-made :
      (tenant : Text) (i : PersonIdentifiers) (attrs : Json) (now : Time) (id key : ObjectId)
      (p p' : P) (d : Person)
      → create_person people tenant i attrs now id key p ≡ (p', ok d)
      → (is_person tenant d.person_id d ≡ true) × (people.docs p' ≡ people.docs p ++ d ∷ [])
  unfolding create_person
  create_person-made tenant i attrs now id key p p' d h =
      let (_, h1) = require-eq-ok people.configured not_configured p _ h in
      let made : Person = record {
        id = id;
        tenant_id = tenant;
        person_id = key;
        national_id = i.national_id;
        primary_email = i.email;
        primary_phone = i.phone;
        attributes = attrs;
        created_at = now;
        updated_at = now;
      } in
      let one : P × Result (Unit {0}) =
        writing (wrap "store: insert person") (people.insert_one made) p in
      let (_, inserted, h2) = after-eq-ok one _ h1 in
      let state : one.0 ≡ p' = ap (λ (x : P × Result Person). x.0) h2 in
      let answer : Path (Result Person) (ok made) (ok d) = ap (λ (x : P × Result Person). x.1) h2 in
      let is_made : made ≡ d = cc answer in
      let itself : is_person tenant key made ≡ true = simp (same_refl) in
      let stored : people.docs one.0 ≡ people.docs p ++ made ∷ [] =
        mongo.insert_one_done made p (on_error-eq-ok (wrap "store: insert person") _ inserted) in
      (
        subst (λ (x : Person). is_person tenant x.person_id x ≡ true) is_made itself,
        subst (λ x. people.docs x ≡ people.docs p ++ d ∷ []) state
            (subst (λ x. people.docs one.0 ≡ people.docs p ++ x ∷ []) is_made stored),
      )

-- A link that two keys fit is made of both.
renewed :
    (m : Link) (tenant person source external t k s e : Text)
    → is_link tenant person source external m ≡ true
    → is_link t k s e m ≡ true
    → (same tenant t && same person k && same source s && same external e) ≡ true
unfolding is_link
renewed m tenant person source external t k s e h g = ground (
  arith,
  same_trans m.tenant_id tenant t,
  same_trans m.person_id person k,
  same_trans m.source source s,
  same_trans m.external_id external e,
)

unlinked :
    (m : Link) (tenant person source external t : Text)
    → is_link tenant person source external m ≡ true
    → same tenant t ≡ false
    → link_of t m ≡ false
unfolding is_link
unlinked m tenant person source external t h other = ground (arith, same_trans m.tenant_id tenant t)

module _ {L : Type 0} (links : Collection L Link) (mongo : IsMongo links) where
  -- The link of the arguments is there, those that were stay, and another tenant's are as before.
  pub upsert_link-Kept :
      (tenant person source external : Text) (payload : Json) (now : Time) (id : ObjectId)
      (l l' : L)
      → upsert_link links tenant person source external payload now id l ≡ (l', ok tt)
      → (any (is_link tenant person source external) (links.docs l') ≡ true)
        × ((t k s e : Text)
            → any (is_link t k s e) (links.docs l) ≡ true
            → any (is_link t k s e) (links.docs l') ≡ true)
        × ((t : Text)
            → same tenant t ≡ false
            → keep (link_of t) (links.docs l') ≡ keep (link_of t) (links.docs l))
  unfolding upsert_link is_link
  upsert_link-Kept tenant person source external payload now id l l' h =
      let (_, h1) = require-eq-ok links.configured not_configured l _ h in
      let (_, h2) =
        require-eq-ok (not (is_blank source || is_blank external))
          (message "store: link source and external id required") l _ h1 in
      let renew : Link → Link = λ k. record k {
        tenant_id = tenant;
        person_id = person;
        source = source;
        external_id = external;
        payload = payload;
        updated_at = now;
      } in
      let fresh : Link = record {
        id = id;
        tenant_id = tenant;
        person_id = person;
        source = source;
        external_id = external;
        payload = payload;
        created_at = now;
        updated_at = now;
      } in
      let here : (k : Link) → is_link tenant person source external (renew k) ≡ true =
        λ k. simp (same_refl) in
      let new : is_link tenant person source external fresh ≡ true = simp (same_refl) in
      let done : Upserted (is_link tenant person source external) renew fresh (links.docs l)
          (links.docs l') =
        subst
          (λ (x : L × Result (Unit {0})).
            Upserted (is_link tenant person source external) renew fresh (links.docs l)
              (links.docs x.0))
          h2
          (mongo.upsert_one_done (is_link tenant person source external) renew fresh l (
            on_error-eq-ok (wrap "store: upsert link") _
              (ap (λ (x : L × Result (Unit {0})). x.1) h2))) in
      (
        Upserted-here (is_link tenant person source external) renew fresh
            (is_link tenant person source external) here new done,
        λ t k s e.
            Upserted-any (is_link tenant person source external) renew fresh (is_link t k s e)
              (λ m. renewed m tenant person source external t k s e) done,
        λ t other.
            Upserted-keep (is_link tenant person source external) renew fresh (link_of t)
              (λ m hit_. (unlinked m tenant person source external t hit_ other, other)) other done,
      )

-- Both statuses of a record that waits no more.
abbrev pub is_final : Text → Bool
is_final status = same status raw_status_resolved || same status raw_status_needs_review

-- The update of one record.
abbrev marked : Text → List ObjectId → Text → Text → Time → RawRecord → RawRecord
marked tenant ids status person now d =
    if is_raw tenant ids d then set_status status person now d else d

one_of-same :
    (ids : List ObjectId) (i j : ObjectId)
    → same i j ≡ true
    → one_of ids j ≡ true
    → one_of ids i ≡ true
one_of-same ids i j h m = let q : i ≡ j = (same_iff i j).0 h in rw (sym q) at m

module _ (tenant : Text) (ids : List ObjectId) (status person : Text) (now : Time) where
  marked-settled :
      (id : ObjectId) (d : RawRecord)
      → is_final status ≡ true
      → one_of ids id ≡ true
      → settled_at tenant id (marked tenant ids status person now d) ≡ true
  unfolding is_raw set_status
  marked-settled id d final m = elim (Bool-cases (is_raw tenant ids d)) [
    | inl y ↦ rw y (ground arith)
    | inr n ↦ rw n (ground (arith, one_of-same ids d.id id))
  ]

  marked-stays :
      (t id : Text) (d : RawRecord)
      → is_final status ≡ true
      → settled_at t id d ≡ true
      → settled_at t id (marked tenant ids status person now d) ≡ true
  unfolding is_raw set_status
  marked-stays t id d final was = elim (Bool-cases (is_raw tenant ids d)) [
    | inl y ↦ rw y (ground arith)
    | inr n ↦ rw n was
  ]

  marked-other :
      (t : Text) (d : RawRecord)
      → same tenant t ≡ false
      → raw_of t d ≡ true
      → marked tenant ids status person now d ≡ d
  unfolding is_raw set_status
  marked-other t d n h = elim (Bool-cases (same d.tenant_id tenant)) [
    | inl y ↦
        absurd (let k : same tenant t ≡ true = same_trans d.tenant_id tenant t y h in ground arith)
    | inr k ↦ simp (k)
  ]

  marked-raw_of :
      (t : Text) (d : RawRecord)
      → raw_of t d ≡ false
      → raw_of t (marked tenant ids status person now d) ≡ false
  unfolding is_raw set_status
  marked-raw_of t d h = elim (Bool-cases (is_raw tenant ids d)) [ inl y ↦ rw y h | inr n ↦ rw n h ]

module _ {R : Type 0} (raw : Collection R RawRecord) (mongo : IsMongo raw) where
  -- The records of the ids wait no more, none of those that did waits again, and another tenant's are as
  -- before.
  pub update_raw_status-Kept :
      (tenant : Text) (ids : List ObjectId) (status person : Text) (now : Time) (r r' : R)
      → is_final status ≡ true
      → update_raw_status raw tenant ids status person now r ≡ (r', ok tt)
      → ((id : ObjectId) → one_of ids id ≡ true → all (settled_at tenant id) (raw.docs r') ≡ true)
        × ((t id : Text)
            → all (settled_at t id) (raw.docs r) ≡ true
            → all (settled_at t id) (raw.docs r') ≡ true)
        × ((t : Text)
            → same tenant t ≡ false
            → keep (raw_of t) (raw.docs r') ≡ keep (raw_of t) (raw.docs r))
  unfolding update_raw_status is_raw set_status
  update_raw_status-Kept tenant [] status person now r r' final h =
      let (_, h1) = require-eq-ok raw.configured not_configured r _ h in
      let state : r ≡ r' = ap (λ (x : R × Result (Unit {0})). x.0) h1 in
      (
        λ id m. absurd (ground arith),
        λ t id k. subst (λ x. all (settled_at t id) (raw.docs x) ≡ true) state k,
        λ t n. ap (λ x. keep (raw_of t) (raw.docs x)) (sym state),
      )
  update_raw_status-Kept tenant (i ∷ is) status person now r r' final h =
      let (_, h1) = require-eq-ok raw.configured not_configured r _ h in
      let one : R × Result ℕ =
        writing (wrap "store: update raw status")
          (raw.update_many (is_raw tenant (i ∷ is)) (set_status status person now)) r in
      let (n, updated, h2) = after-eq-ok one _ h1 in
      let state : one.0 ≡ r' = ap (λ (x : R × Result (Unit {0})). x.0) h2 in
      let step : RawRecord → RawRecord = marked tenant (i ∷ is) status person now in
      let done : raw.docs r' ≡ map step (raw.docs r) =
        subst (λ x. raw.docs x ≡ map step (raw.docs r)) state
          (mongo.update_many_done _ _ r n
            (on_error-eq-ok (wrap "store: update raw status") _ updated)) in
      (
        λ id m. rw done (
            all-mapped (settled_at tenant id) step
              (λ d. marked-settled tenant (i ∷ is) status person now id d final m) (raw.docs r)),
        λ t id k. rw done (
            all-map (settled_at t id) step
              (λ d. marked-stays tenant (i ∷ is) status person now t id d final) (raw.docs r) k),
        λ t n. rw done (
            keep-map (raw_of t) step (λ d. marked-other tenant (i ∷ is) status person now t d n)
              (λ d. marked-raw_of tenant (i ∷ is) status person now t d) (raw.docs r)),
      )
