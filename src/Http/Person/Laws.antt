-- ===== src/Http/Person/Laws.antt =====
-- What the answers of the handlers for persons say of the stored documents.
use kd_server.Common.{
  String, ◌≡◌, refl, ap, inl, inr, Bool, true, false, not, ◌&&◌, Option, none, some, List, [], ◌∷◌,
  map, if◌then◌else◌, Bool-cases, All, Result, ok, err, message, about, wrap, fault, no_documents,
  duplicate_key,
}
use kd_server.Text.{
  Text, codes, same, is_empty, is_blank, trim_space, Casing, to_lower, trim_prefix,
}
use kd_server.Mongo.{reading, Collection}
use kd_server.Mongo.Laws.{IsMongo, on_error-same, on_error-wrapped, require-eq-err, after-eq-err}
use kd_server.Time.{Time}
use kd_server.Tenant.{not_configured}
use kd_server.Ingest.{RawRecord, tenant_required}
use kd_server.Person.{
  Person, Link, Registry, on_people, on_links, find_person_with_links,
  find_person_with_links_by_email, find_person_with_links_by_phone,
}
use kd_server.Person.Review.{object_id_from_hex, decide}
use kd_server.Person.Lookup.{PersonView, fetch, by_phone, by_email}
use kd_server.Http.{Reply, failed, done}
use kd_server.Person.Lookup.Laws.{with_email, with_phone}
use kd_server.Http.Person.{
  review_decision_handler, lookup_reply, lookup_phone_handler, lookup_email_handler, decision_reply,
  decision_body, decision_path,
}
use kd_server.Person.Review.Laws.{Decides, is_item, decide-exact}
use kd_server.Asset.Number.{split}

module _ {P L R : Type 0} (people : Collection P Person) (links : Collection L Link)
    (mongo : IsMongo people) where
  -- A lookup that fails with exactly `no_documents` found no person.
  fetch-missing :
      (store : Bool) (tenant : Text) (wanted : Person → Bool) (s s' : Registry P L R)
      → fetch store tenant (λ t. find_person_with_links people links wanted) s
        ≡ (s', err no_documents)
      → All (λ p. wanted p ≡ false) (people.docs s.people)
  unfolding fetch find_person_with_links
  fetch-missing store tenant wanted s s' h =
      elim (require-eq-err store (message "services: lookup store not configured") s _ h) [
        | inl (_, _, other) ↦ absurd cc
        | inr (_, h1) ↦ elim (require-eq-err (not (is_blank tenant)) tenant_required s _ h1) [
          | inl (_, _, other) ↦ absurd cc
          | inr (_, h2) ↦
              elim (after-eq-err (find_person_with_links {R = R} people links wanted s) _ h2) [
                | inr (a, _, done_) ↦ absurd cc
                | inl (state, missing) ↦
                    let r : Registry P L R × Result (Person × List Link) =
                      find_person_with_links people links wanted s in
                    elim (require-eq-err (people.configured && links.configured) not_configured s _
                      (ap (λ x. (r.0, x)) missing)) [
                        | inl (_, _, other) ↦ absurd cc
                        | inr (_, h3) ↦
                            let one : Registry P L R × Result Person =
                              on_people (reading (λ e. e) (people.find_one wanted)) s in
                            elim (after-eq-err one _ h3) [
                              | inl (_, none_found) ↦
                                  mongo.find_one_missing wanted s.people no_documents
                                    (on_error-same _ none_found) refl
                              | inr (p, _, h4) ↦
                                  let two : Registry P L R × Result (List Link) =
                                    on_links
                                      (reading (wrap "store: find links") (
                                        links.find (record {
                                          matches = λ k.
                                              same k.tenant_id p.tenant_id
                                              && same k.person_id p.person_id;
                                          precedes = λ j k. true;
                                          skip = 0;
                                          limit = 0;
                                        })))
                                      one.0 in
                                  elim (after-eq-err two _ h4) [
                                    | inl (_, wrapped) ↦
                                        on_error-wrapped _ "store: find links" wrapped
                                    | inr (ls, _, done_) ↦ absurd cc
                                  ]
                            ]
                      ]
              ]
        ]
      ]

-- The identifier that a path asks for.
abbrev pub requested : String → Text → Text
requested prefix path = trim_space (trim_prefix (codes prefix) path)

not_found-eq :
    {S : Type 0} (r : S × Result PersonView) {s' : S}
    → lookup_reply r ≡ (s', failed 404 "not found")
    → r ≡ (s', err no_documents)
not_found-eq (s, ok view) h = absurd cc
not_found-eq (s, err no_documents) h = cc
not_found-eq (s, err duplicate_key) h = absurd cc
not_found-eq (s, err (fault n)) h = absurd cc
not_found-eq (s, err (message m)) h = absurd cc
not_found-eq (s, err (about m t)) h = absurd cc
not_found-eq (s, err (wrap m e)) h = absurd cc

module _ {P L R : Type 0} (people : Collection P Person) (links : Collection L Link)
    (mongo : IsMongo people) where
  -- A lookup by phone is answered with 404 only where the tenant has no person with the phone of the path.
  pub lookup_phone_handler-missing :
      (store : Bool) (tenant path : Text) (s s' : Registry P L R)
      → lookup_phone_handler people links store (some tenant) path s ≡ (s', failed 404 "not found")
      → All
          (λ p. with_phone tenant (requested "/v1/lookup/phone/" path) p ≡ false)
          (people.docs s.people)
  unfolding lookup_phone_handler by_phone find_person_with_links_by_phone fetch
  lookup_phone_handler-missing store tenant path s s' h =
      let phone : Text = requested "/v1/lookup/phone/" path in
      elim (Bool-cases (is_empty phone)) [
        | inl empty ↦ absurd (
            let z : Path (Registry P L R × Reply PersonView) (s, failed 400 "phone required")
                (s', failed 404 "not found") =
              rw empty at h in
            cc)
        | inr given ↦
            let g : lookup_reply (by_phone people links store tenant phone s)
                ≡ (s', failed 404 "not found") =
              rw given at h in
            elim (require-eq-err (not (is_blank phone)) (message "services: phone required") s _
              (not_found-eq (by_phone people links store tenant phone s) g)) [
                | inl (_, _, other) ↦ absurd cc
                | inr (_, h1) ↦
                    fetch-missing people links mongo store tenant (with_phone tenant phone) s s' h1
              ]
      ]

  -- A lookup by email is answered with 404 only where the tenant has no person whose email is the one of
  -- the path, trimmed and in lower case.
  pub lookup_email_handler-missing :
      ⦃u : Casing⦄ (store : Bool) (tenant path : Text) (s s' : Registry P L R)
      → lookup_email_handler people links store (some tenant) path s ≡ (s', failed 404 "not found")
      → All
          (λ p.
            with_email tenant (to_lower (trim_space (requested "/v1/lookup/email/" path))) p
            ≡ false)
          (people.docs s.people)
  unfolding lookup_email_handler by_email find_person_with_links_by_email fetch
  lookup_email_handler-missing store tenant path s s' h =
      let email : Text = requested "/v1/lookup/email/" path in
      elim (Bool-cases (is_empty email)) [
        | inl empty ↦ absurd (
            let z : Path (Registry P L R × Reply PersonView) (s, failed 400 "email required")
                (s', failed 404 "not found") =
              rw empty at h in
            cc)
        | inr given ↦
            let g : lookup_reply (by_email people links store tenant email s)
                ≡ (s', failed 404 "not found") =
              rw given at h in
            elim (require-eq-err (not (is_blank email)) (message "services: email required") s _
              (not_found-eq (by_email people links store tenant email s) g)) [
                | inl (_, _, other) ↦ absurd cc
                | inr (_, h1) ↦
                    fetch-missing people links mongo store tenant
                      (with_email tenant (to_lower (trim_space email))) s s' h1
              ]
      ]

-- The parts of a path behind the prefix.
abbrev pub path_parts : Text → List Text
path_parts path = split b'/' (trim_prefix (codes "/v1/review/") path)

module _ ⦃u : Casing⦄ {R : Type 0} (raw : Collection R RawRecord) (mongo : IsMongo raw) where
  decided_body :
      (store : Bool) (now : Time) (tenant raw_id : Text) (body : Option Text) (r r' : R) (t : Text)
      → decision_body raw store raw_id now body tenant r ≡ (r', done 200 t)
      → (decision : Text) × (body ≡ some decision)
        × (decide raw store tenant raw_id decision now r ≡ (r', ok tt))
  decided_body store now tenant raw_id none r r' t h = absurd cc
  decided_body store now tenant raw_id (some decision) r r' t h =
      (decision, refl, decision_reply-ok (decide raw store tenant raw_id decision now r) h)
    where
      decision_reply-ok :
          {S : Type 0} (x : S × Result (Unit {0})) {s' : S} {a : Text}
          → decision_reply x ≡ (s', done 200 a)
          → x ≡ (s', ok tt)
      decision_reply-ok (s, ok _) g = cc
      decision_reply-ok (s, err e) g = absurd cc

  decided_path :
      (store : Bool) (now : Time) (tenant : Text) (parts : List Text) (body : Option Text)
      (r r' : R) (t : Text)
      → decision_path raw store parts now body tenant r ≡ (r', done 200 t)
      → (raw_id decision : Text) × (rest : List Text) × (parts ≡ raw_id ∷ rest)
        × (body ≡ some decision)
        × (decide raw store tenant raw_id decision now r ≡ (r', ok tt))
  decided_path store now tenant [] body r r' t h = absurd cc
  decided_path store now tenant (raw_id ∷ []) body r r' t h = absurd cc
  decided_path store now tenant (raw_id ∷ w ∷ ws) body r r' t h =
      let (decision, given, done_) = decided_body store now tenant raw_id body r r' t h in
      (raw_id, decision, w ∷ ws, refl, given, done_)

  -- A decision is answered with 200 only for a POST whose path has a well-formed id behind "/v1/review/"
  -- and whose body has a decision that reads "accept" or "reject" once it is put into lower case. Then the
  -- tenant's records of that id, if there are any, have the status "resolved" for "accept" and "rejected"
  -- for "reject" and the time of the decision, and nothing else of them and no other record has changed.
  pub review_decision_handler-updated :
      (store : Bool) (now : Time) (tenant method path : Text) (body : Option Text) (r r' : R)
      (t : Text)
      → review_decision_handler raw store now (some tenant) method path body r ≡ (r', done 200 t)
      → (same method (codes "POST") ≡ true)
        × (raw_id decision : Text) × (rest : List Text) × (path_parts path ≡ raw_id ∷ rest)
        × (body ≡ some decision)
        × (id status : Text) × (object_id_from_hex raw_id ≡ some id)
        × Decides decision status
        × (raw.docs r'
            ≡ map
                (λ d.
                  if is_item tenant id d then record d { status = status; updated_at = now } else d)
                (raw.docs r))
  unfolding review_decision_handler
  review_decision_handler-updated store now tenant method path body r r' t h =
      elim (Bool-cases (same method (codes "POST"))) [
        | inr n ↦ absurd (
            let z : Path (R × Reply Text) (r, failed 405 "method not allowed") (r', done 200 t) =
              rw n at h in
            cc)
        | inl y ↦
            let g : decision_path raw store (path_parts path) now body tenant r ≡ (r', done 200 t) =
              rw y at h in
            let (raw_id, decision, rest, split_eq, given, done_) =
              decided_path store now tenant (path_parts path) body r r' t g in
            let (id, status, read_id, read_status, exact) =
              decide-exact raw mongo store tenant raw_id decision now r r' done_ in
            (y, raw_id, decision, rest, split_eq, given, id, status, read_id, read_status, exact)
      ]
