-- ===== src/Person/Lookup/Tests.antt =====
-- Lookups of a stored person.
use kd_server.Common.{◌≡◌, refl, true, [], ◌∷◌}
use kd_server.Text.{codes, is_space, trim_space, to_lower, lower_rune}
use kd_server.Person.{
  find_person_with_links, find_person_with_links_by_email, find_person_with_links_by_phone,
}
use kd_server.Person.Lookup.{
  PersonView, to_person_payload, to_link_payloads, to_view, fetch, by_phone, by_email,
}
use kd_server.Mongo.Memory.{memory, memory-IsMongo}
use kd_server.Samples.{plain_casing}
use kd_server.Person.Samples.{registry, ada, ada_link}
use kd_server.Person.Lookup.Laws.{Shown, with_email, by_email-Shown}

code : Unit {0}
unfolding memory by_email by_phone fetch find_person_with_links_by_email
    find_person_with_links_by_phone find_person_with_links to_person_payload to_link_payloads
    trim_space is_space lower_rune
code = tt

abbrev ada_view : PersonView
ada_view = to_view (ada, ada_link ∷ [])

by_email-Shown_example :
    Shown memory memory
      (with_email (codes "acme") (to_lower (trim_space (codes " A@X "))))
      registry
      ada_view
    × (registry ≡ registry)
unfolding code
by_email-Shown_example =
    by_email-Shown memory memory memory-IsMongo memory-IsMongo true (codes "acme") (codes " A@X ")
      registry registry ada_view refl
