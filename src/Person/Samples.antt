-- ===== src/Person/Samples.antt =====
-- Raw records, persons and a registry that the tests of the persons run on.
use kd_server.Common.{ℕ, List, [], ◌∷◌}
use kd_server.Text.{Text, codes}
use kd_server.Json.{Json, text}
use kd_server.Ingest.{RawRecord}
use kd_server.Person.{Person, Link, raw_status_pending, Registry}
use kd_server.Person.Resolve.{Draws}
use kd_server.Samples.{noon}

abbrev pub raw_record : Text → Text → Json → RawRecord
raw_record tenant id payload = record {
  id = id;
  tenant_id = tenant;
  source_slug = codes "hr";
  payload = payload;
  status = raw_status_pending;
  person_id = [];
  ingest_batch = codes "b";
  created_at = noon;
  updated_at = noon;
}

abbrev pub ada_payload : Json
ada_payload = (codes "email", text (codes "A@x")) ∷ []

abbrev pub ada : Person
ada = record {
  id = codes "p";
  tenant_id = codes "acme";
  person_id = codes "ada";
  national_id = [];
  primary_email = codes "a@x";
  primary_phone = codes "7";
  attributes = [];
  created_at = noon;
  updated_at = noon;
}

abbrev pub ada_link : Link
ada_link = record {
  id = codes "l";
  tenant_id = codes "acme";
  person_id = codes "ada";
  source = codes "hr";
  external_id = codes "1";
  payload = [];
  created_at = noon;
  updated_at = noon;
}

-- Two records that wait, one without an identifier, and one of another tenant.
abbrev pub registry : Registry (List Person) (List Link) (List RawRecord)
registry = record {
  people = ada ∷ [];
  links = ada_link ∷ [];
  raw =
      raw_record (codes "acme") (codes "r1") ada_payload
      ∷ raw_record (codes "acme") (codes "r2") []
      ∷ raw_record (codes "other") (codes "r3") []
      ∷ [];
}

abbrev pub draws : ℕ → Draws
draws i = record {
  person_object = codes "po";
  person_key = codes "pk";
  link_object = codes "lo";
  matched_at = noon;
  linked_at = noon;
  marked_at = noon;
}
