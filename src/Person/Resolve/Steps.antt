-- ===== src/Person/Resolve/Steps.antt =====
-- What one record of a resolve run leaves behind, and what the run keeps of it.
use kd_server.Common.{
  ◌≢◌, ◌↔◌, All-map, ◌≡◌, refl, sym, ap, ◌∙◌, ◌⊎◌, inl, inr, Bool, true, false, List, [], ◌∷◌, Memᴰ,
  arith, Bool-cases, Result-cases, any, All, Result, ok, err, Error, no_documents, is_no_documents,
  any-append, any-mem,
}
use kd_server.Text.{same_iff, Text, same_refl}
use kd_server.Person.{
  by_key, Person, PersonIdentifiers, is_anonymous, shares_identifier, find_person_by_identifiers,
  create_person, update_person_identifiers,
}
use kd_server.Mongo.{pure, raise, on_error, Collection}
use kd_server.Mongo.Laws.{IsMongo, after-eq-ok, on_error-eq-ok, on_error-same}
use kd_server.Json.{Json}
use kd_server.Tenant.{not_configured}
use kd_server.Person.Laws.{is_person, update_person_identifiers-kept, create_person-made}
use kd_server.Person.Resolve.{Draws, matched, match_person}
use mathlib.Core.Path.{subst}

-- The person is the tenant's, and has one of the identifiers that are given.
abbrev pub Shares : Text → PersonIdentifiers → Person → Type 0
Shares tenant i d =
    (d.tenant_id ≡ tenant)
    × (((i.national_id ≢ []) × (d.national_id ≡ i.national_id))
        ⊎ ((i.email ≢ []) × (d.primary_email ≡ i.email))
        ⊎ ((i.phone ≢ []) × (d.primary_phone ≡ i.phone)))

by_key-given :
    (wanted value : Text) → (by_key wanted value ≡ true) ↔ ((wanted ≢ []) × (value ≡ wanted))
by_key-given [] value = (λ h. cc, λ h. absurd (h.0 refl))
by_key-given (c ∷ wanted) value =
    (λ h. (λ e. cc, (same_iff value (c ∷ wanted)).0 h), λ h. (same_iff value (c ∷ wanted)).1 h.1)

shares_identifier-Shares :
    (tenant : Text) (i : PersonIdentifiers) (d : Person)
    → (shares_identifier tenant i d ≡ true) ↔ Shares tenant i d
unfolding shares_identifier
shares_identifier-Shares tenant i d = ground (
  arith,
  same_iff d.tenant_id tenant,
  by_key-given i.national_id d.national_id,
  by_key-given i.email d.primary_email,
  by_key-given i.phone d.primary_phone,
)

module _ {P : Type 0} (people : Collection P Person) where
  find-stays :
      (tenant : Text) (i : PersonIdentifiers) (p : P)
      → (find_person_by_identifiers people tenant i p).0 ≡ p
  unfolding find_person_by_identifiers
  find-stays tenant i p = elim (Bool-cases people.configured) [
    | inr n ↦ rw n refl
    | inl y ↦ elim (Bool-cases (is_anonymous i)) [
      | inl none_given ↦ rw (y, none_given) refl
      | inr given ↦ rw (y, given) refl
    ]
  ]

  -- No person shares an identifier where none is given.
  anonymous-none :
      (tenant : Text) (i : PersonIdentifiers) (ds : List Person)
      → is_anonymous i ≡ true
      → All (λ d. shares_identifier tenant i d ≡ false) ds
  unfolding is_anonymous shares_identifier
  anonymous-none tenant i [] h = tt
  anonymous-none tenant i (d ∷ ds) h = (ground arith, anonymous-none tenant i ds h)

  module _ (mongo : IsMongo people) where
    -- Both answers of the query.
    pub find_person_by_identifiers-Found :
        (tenant : Text) (i : PersonIdentifiers) (p : P)
        → ((d : Person)
            → (find_person_by_identifiers people tenant i p).1 ≡ ok d
            → Memᴰ d (people.docs p) × (shares_identifier tenant i d ≡ true))
          × ((e : Error)
              → (find_person_by_identifiers people tenant i p).1 ≡ err e
              → is_no_documents e ≡ true
              → All (λ d. shares_identifier tenant i d ≡ false) (people.docs p))
    unfolding find_person_by_identifiers
    find_person_by_identifiers-Found tenant i p = elim (Bool-cases people.configured) [
      | inr n ↦
          let r : (find_person_by_identifiers people tenant i p).1 ≡ err not_configured =
            rw n refl in
          (
            λ d h.
                absurd (let q : Path (Result Person) (err not_configured) (ok d) = sym r ∙ h in cc),
            λ e h m.
                let q : Path (Result Person) (err not_configured) (err e) = sym r ∙ h in
                let k : not_configured ≡ e = cc in
                absurd (let z : false ≡ true = rw (sym k) at m in cc),
          )
      | inl y ↦ elim (Bool-cases (is_anonymous i)) [
        | inl none_given ↦
            let r : (find_person_by_identifiers people tenant i p).1 ≡ err no_documents =
              rw (y, none_given) refl in
            (
              λ d h.
                  absurd (let q : Path (Result Person) (err no_documents) (ok d) = sym r ∙ h in cc),
              λ e h m. anonymous-none tenant i (people.docs p) none_given,
            )
        | inr given ↦
            let look : Person → Bool = shares_identifier tenant i in
            let r : (find_person_by_identifiers people tenant i p).1
                ≡ on_error (λ e. e) (people.find_one look p) =
              rw (y, given) refl in
            (
              λ d h. mongo.find_one_found look p d (on_error-eq-ok (λ e. e) _ (sym r ∙ h)),
              λ e h m. mongo.find_one_missing look p e (on_error-same _ (sym r ∙ h)) m,
            )
      ]
    ]

    -- Behind the query, a person with the key of the one that is returned is there.
    matched-Kept :
        (tenant : Text) (i : PersonIdentifiers) (payload : Json) (draws : Draws)
        (found : Result Person) (p p' : P) (d : Person)
        → ((q : Person) → found ≡ ok q → any (is_person tenant q.person_id) (people.docs p) ≡ true)
        → matched people tenant i payload draws found p ≡ (p', ok d)
        → (any (is_person tenant d.person_id) (people.docs p') ≡ true)
          × ((t k : Text)
              → any (is_person t k) (people.docs p) ≡ true
              → any (is_person t k) (people.docs p') ≡ true)
    matched-Kept tenant i payload draws (ok q) p p' d there h =
        let one : P × Result (Unit {0}) =
          update_person_identifiers people q.person_id i draws.matched_at p in
        let (_, updated, h1) = after-eq-ok one (λ _. pure q) h in
        let state : one.0 ≡ p' = ap (λ (x : P × Result Person). x.0) h1 in
        let answer : Path (Result Person) (ok q) (ok d) = ap (λ (x : P × Result Person). x.1) h1 in
        let same_person : q ≡ d = cc answer in
        let all_kept =
          update_person_identifiers-kept people mongo q.person_id i draws.matched_at p p'
            (ap (λ x. (x, one.1)) state ∙ ap (λ x. (p', x)) updated) in
        (
          subst (λ (x : Person). any (is_person tenant x.person_id) (people.docs p') ≡ true)
              same_person (all_kept tenant q.person_id (there q refl)),
          all_kept,
        )
    matched-Kept tenant i payload draws (err e) p p' d there h =
        elim (Bool-cases (is_no_documents e)) [
          | inl y ↦
              let made : create_person people tenant i payload draws.matched_at draws.person_object
                    draws.person_key p
                  ≡ (p', ok d) =
                rw y at h in
              let (itself, stored) =
                create_person-made people mongo tenant i payload draws.matched_at
                  draws.person_object draws.person_key p p' d made in
              (
                rw
                    (
                      stored,
                      any-append (is_person tenant d.person_id) (people.docs p) (d ∷ []),
                      itself,
                    )
                    (ground arith),
                λ t k was.
                    rw (stored, any-append (is_person t k) (people.docs p) (d ∷ []), was) refl,
              )
          | inr n ↦
              let failed : raise {S = P} {A = Person} e p ≡ (p', ok d) = rw n at h in absurd cc
        ]

    pub match_person-Kept :
        (tenant : Text) (i : PersonIdentifiers) (payload : Json) (draws : Draws) (p p' : P)
        (d : Person)
        → match_person people tenant i payload draws p ≡ (p', ok d)
        → (any (is_person tenant d.person_id) (people.docs p') ≡ true)
          × ((t k : Text)
              → any (is_person t k) (people.docs p) ≡ true
              → any (is_person t k) (people.docs p') ≡ true)
    unfolding match_person shares_identifier
    match_person-Kept tenant i payload draws p p' d h =
        let look : P × Result Person = find_person_by_identifiers people tenant i p in
        let behind : matched people tenant i payload draws look.1 p ≡ (p', ok d) =
          subst (λ x. matched people tenant i payload draws look.1 x ≡ (p', ok d))
            (find-stays tenant i p) h in
        matched-Kept tenant i payload draws look.1 p p' d
          (λ q found.
            let (m, shares) = (find_person_by_identifiers-Found tenant i p).0 q found in
            any-mem (is_person tenant q.person_id) (people.docs p) m
              (ground (arith, same_refl q.person_id)))
          behind

    -- The query for a person answers with a stored person of the tenant that has one of the identifiers
    -- that are not empty, or with an error; if that is that none is found, no stored person of the tenant
    -- has one.
    pub find_person_by_identifiers-answer :
        (tenant : Text) (i : PersonIdentifiers) (p : P)
        → ((d : Person) × ((find_person_by_identifiers people tenant i p).1 ≡ ok d)
            × Memᴰ d (people.docs p)
            × Shares tenant i d)
          ⊎ ((e : Error) × ((find_person_by_identifiers people tenant i p).1 ≡ err e)
              × ((is_no_documents e ≡ false) ⊎ All (λ d. ¬ Shares tenant i d) (people.docs p)))
    find_person_by_identifiers-answer tenant i p =
        let (found, missing) = find_person_by_identifiers-Found tenant i p in
        elim (Result-cases (find_person_by_identifiers people tenant i p).1) [
          | inl (d, h) ↦
              let (m, shares) = found d h in
              inl (d, h, m, (shares_identifier-Shares tenant i d).0 shares)
          | inr (e, h) ↦ elim (Bool-cases (is_no_documents e)) [
            | inl y ↦ inr (
              e,
              h,
              inr (
                  All-map
                    (λ d apart shares. cc (apart, (shares_identifier-Shares tenant i d).1 shares))
                    (people.docs p) (missing e h y)),
            )
            | inr n ↦ inr (e, h, inl n)
          ]
        ]
