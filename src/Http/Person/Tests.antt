-- ===== src/Http/Person/Tests.antt =====
-- Requests for persons and decisions, with their answers.
use kd_server.Person.Review.Laws.{Decides, is_item}
use kd_server.Common.{◌≡◌, refl, true, false, some, List, [], ◌∷◌, map, if◌then◌else◌, All}
use kd_server.Text.{
  Text, codes, same, is_space, trim_space, to_lower, has_prefix, trim_prefix, lower_rune,
}
use kd_server.Ingest.{RawRecord}
use kd_server.Person.{
  find_person_with_links, find_person_with_links_by_email, find_person_with_links_by_phone,
  set_status, is_raw, update_raw_status,
}
use kd_server.Person.Review.{object_id_from_hex, decided_status, decide}
use kd_server.Person.Lookup.{to_person_payload, to_link_payloads, fetch, by_phone, by_email}
use kd_server.Http.{Reply, done}
use kd_server.Person.Lookup.Laws.{with_email}
use kd_server.Http.Person.{review_decision_handler, lookup_phone_handler, lookup_email_handler}
use kd_server.Asset.Number.{split}
use kd_server.Mongo.Memory.{memory, memory-IsMongo}
use kd_server.Samples.{noon, plain_casing}
use kd_server.Person.Samples.{registry, raw_record}
use kd_server.Text.Encode.{hex_encode, hex_decode}
use kd_server.Http.Person.Laws.{
  requested, path_parts, lookup_email_handler-missing, review_decision_handler-updated,
}

code : Unit {0}
unfolding memory by_email by_phone fetch find_person_with_links_by_email
    find_person_with_links_by_phone find_person_with_links to_person_payload to_link_payloads
    trim_space is_space lower_rune lookup_email_handler lookup_phone_handler trim_prefix has_prefix
    review_decision_handler split decide update_raw_status is_raw set_status decided_status
    object_id_from_hex hex_decode hex_encode
code = tt

lookup_email_handler-missing_example :
    All
      (λ p.
        with_email
          (codes "acme")
          (to_lower (trim_space (requested "/v1/lookup/email/" (codes "/v1/lookup/email/b@x"))))
          p
        ≡ false)
      registry.people
unfolding code
lookup_email_handler-missing_example =
    lookup_email_handler-missing memory memory memory-IsMongo true (codes "acme")
      (codes "/v1/lookup/email/b@x") registry registry refl

abbrev item_id : Text
item_id = codes "0123456789abcdef01234567"

abbrev items : List RawRecord
items = raw_record (codes "acme") item_id [] ∷ raw_record (codes "other") item_id [] ∷ []

abbrev path : Text
path = codes "/v1/review/0123456789abcdef01234567/decision"

abbrev out : List RawRecord × Reply Text
out =
    review_decision_handler memory true noon (some (codes "acme")) (codes "POST") path
      (some (codes "reject")) items

out_done : out ≡ (out.0, done 200 (codes "updated"))
unfolding code
out_done = refl

review_decision_handler-updated_example :
    (same (codes "POST") (codes "POST") ≡ true)
    × (raw_id decision : Text) × (rest : List Text) × (path_parts path ≡ raw_id ∷ rest)
    × (some (codes "reject") ≡ some decision)
    × (id status : Text) × (object_id_from_hex raw_id ≡ some id)
    × Decides decision status
    × (out.0
        ≡ map
            (λ d.
              if is_item (codes "acme") id d
              then record d { status = status; updated_at = noon }
              else d)
            items)
unfolding code
review_decision_handler-updated_example =
    review_decision_handler-updated memory memory-IsMongo true noon (codes "acme") (codes "POST")
      path (some (codes "reject")) items out.0 (codes "updated") out_done
