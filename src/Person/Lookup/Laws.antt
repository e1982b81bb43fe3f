-- ===== src/Person/Lookup/Laws.antt =====
-- What a lookup returns.
use kd_server.Common.{
  ◌≡◌, sym, ap, ◌∙◌, Bool, true, not, ◌&&◌, List, Memᴰ, keep, Result, ok, message, wrap,
}
use kd_server.Text.{Text, same, is_blank, trim_space, Casing, to_lower}
use kd_server.Mongo.{reading, Query, Collection}
use kd_server.Mongo.Laws.{IsMongo, after-eq-ok, require-eq-ok, on_error-eq-ok}
use kd_server.Tenant.{not_configured}
use kd_server.Ingest.{tenant_required}
use kd_server.Person.{
  Person, Link, Registry, on_people, on_links, find_person_with_links,
  find_person_with_links_by_email, find_person_with_links_by_phone,
}
use kd_server.Person.Lookup.{
  PersonView, to_person_payload, to_link_payloads, to_view, fetch, by_phone, by_email,
}
use mathlib.Core.Path.{subst}
use mathlib.Core.List.{Perm}

-- A view of one of the stored persons of the tenant that pass the test, with all links of that person.
abbrev pub Shown :
    {P L R : Type 0}
    → Collection P Person
    → Collection L Link
    → (Person → Bool)
    → Registry P L R
    → PersonView
    → Type 0
Shown people links wanted s view =
    (p : Person) × Memᴰ p (people.docs s.people)
    × (wanted p ≡ true)
    × (view.person ≡ to_person_payload p)
    × (ls : List Link) × (view.links ≡ to_link_payloads ls)
    × Perm ls (
        keep (λ k. same k.tenant_id p.tenant_id && same k.person_id p.person_id)
          (links.docs s.links))

abbrev pub with_email : Text → Text → Person → Bool
with_email tenant email p = same p.tenant_id tenant && same p.primary_email email

abbrev pub with_phone : Text → Text → Person → Bool
with_phone tenant phone p = same p.tenant_id tenant && same p.primary_phone phone

module _ {P L R : Type 0} (people : Collection P Person) (links : Collection L Link)
    (mongo_people : IsMongo people) (mongo_links : IsMongo links) where
  fetch-Shown :
      (store : Bool) (tenant : Text) (wanted : Person → Bool) (s s' : Registry P L R)
      (view : PersonView)
      → fetch store tenant (λ t. find_person_with_links people links wanted) s ≡ (s', ok view)
      → Shown people links wanted s view × (s ≡ s')
  unfolding fetch find_person_with_links
  fetch-Shown store tenant wanted s s' view h =
      let (_, h1) = require-eq-ok store (message "services: lookup store not configured") s _ h in
      let (_, h2) = require-eq-ok (not (is_blank tenant)) tenant_required s _ h1 in
      let whole : Registry P L R × Result (Person × List Link) =
        find_person_with_links people links wanted s in
      let ((p, ls), both, h3) = after-eq-ok whole _ h2 in
      let (_, g1) =
        require-eq-ok (people.configured && links.configured) not_configured s _
          (ap (λ x. (whole.0, x)) both) in
      let one : Registry P L R × Result Person =
        on_people (reading (λ e. e) (people.find_one wanted)) s in
      let (q, found, g2) = after-eq-ok one _ g1 in
      let query : Query Link = record {
        matches = λ k. same k.tenant_id q.tenant_id && same k.person_id q.person_id;
        precedes = λ j k. true;
        skip = 0;
        limit = 0;
      } in
      let two : Registry P L R × Result (List Link) =
        on_links (reading (wrap "store: find links") (links.find query)) one.0 in
      let (ks, listed, g3) = after-eq-ok two _ g2 in
      let pair : Path (Result (Person × List Link)) (ok (q, ks)) (ok (p, ls)) =
        ap (λ (x : Registry P L R × Result (Person × List Link)). x.1) g3 in
      let same_pair : Path (Person × List Link) (q, ks) (p, ls) = cc pair in
      let state : whole.0 ≡ s' = ap (λ (x : Registry P L R × Result PersonView). x.0) h3 in
      let unread : s ≡ whole.0 =
        ap (λ (x : Registry P L R × Result (Person × List Link)). x.0) g3 in
      let answer : Path (Result PersonView) (ok (to_view (p, ls))) (ok view) =
        ap (λ (x : Registry P L R × Result PersonView). x.1) h3 in
      let is_view : to_view (q, ks) ≡ view = ap to_view same_pair ∙ cc answer in
      let (there, passes) =
        mongo_people.find_one_found wanted s.people q (on_error-eq-ok (λ e. e) _ found) in
      let (all_links, perm, paged) =
        mongo_links.find_page query s.links ks
          (on_error-eq-ok (wrap "store: find links") _ listed) in
      (
        (
          q,
          there,
          passes,
          ap (λ (v : PersonView). v.person) (sym is_view),
          ks,
          ap (λ (v : PersonView). v.links) (sym is_view),
          subst (λ l. Perm l (keep query.matches (links.docs s.links))) (sym paged) perm,
        ),
        unread ∙ state,
      )

  -- A lookup by phone that succeeds shows a person of the tenant with exactly that phone, and all of the
  -- person's links in some order; nothing changes.
  pub by_phone-Shown :
      (store : Bool) (tenant phone : Text) (s s' : Registry P L R) (view : PersonView)
      → by_phone people links store tenant phone s ≡ (s', ok view)
      → Shown people links (with_phone tenant phone) s view × (s ≡ s')
  unfolding by_phone find_person_with_links_by_phone fetch
  by_phone-Shown store tenant phone s s' view h =
      let (_, h1) =
        require-eq-ok (not (is_blank phone)) (message "services: phone required") s _ h in
      fetch-Shown store tenant (with_phone tenant phone) s s' view h1

  -- A lookup by email that succeeds shows a person of the tenant whose email is the one of the lookup,
  -- trimmed and in lower case, and all of the person's links in some order; nothing changes.
  pub by_email-Shown :
      ⦃u : Casing⦄ (store : Bool) (tenant email : Text) (s s' : Registry P L R) (view : PersonView)
      → by_email people links store tenant email s ≡ (s', ok view)
      → Shown people links (with_email tenant (to_lower (trim_space email))) s view × (s ≡ s')
  unfolding by_email find_person_with_links_by_email fetch
  by_email-Shown store tenant email s s' view h =
      let (_, h1) =
        require-eq-ok (not (is_blank email)) (message "services: email required") s _ h in
      fetch-Shown store tenant (with_email tenant (to_lower (trim_space email))) s s' view h1
