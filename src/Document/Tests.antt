-- ===== src/Document/Tests.antt =====
-- A first document and its next version.
use kd_server.Common.{◌≡◌, refl, true, false, List, [], ◌∷◌, Memᴰ, any, Result, ok}
use kd_server.Text.{codes, is_space, trim_space, lower_rune, upper_rune}
use kd_server.Time.{parse_date, format_date, is_digit, days_in, is_leap}
use kd_server.Format.{pos, next_int}
use kd_server.Person.{Person}
use kd_server.Person.Laws.{is_person}
use kd_server.Document.{
  LocalizedText, IdentityDocument, IdentityDocumentHistory, Cabinet, Ids, history_entry, versioned,
  put_document, save_identity_document,
}
use kd_server.Document.Laws.{Saved, in_place_of}
use kd_server.Document.Service.{
  valid_iso_date, valid_verification_status, normalized, with_standards, checked, save_document,
}
use kd_server.Document.Archive.{
  IsArchived, save_identity_document-Recorded, save_identity_document-IsArchived,
}
use kd_server.Document.Checks.{is_valid, save_document-valid}
use kd_server.Mongo.Memory.{memory, memory-IsMongo}
use kd_server.Samples.{noon, plain_casing}
use kd_server.Person.Samples.{ada}

code : Unit {0}
unfolding memory save_document save_identity_document checked normalized with_standards
    valid_iso_date parse_date format_date is_digit days_in is_leap valid_verification_status
    versioned put_document next_int trim_space is_space lower_rune upper_rune
code = tt

abbrev no_text : LocalizedText
no_text = record { english = []; dhivehi = [] }

abbrev draft : IdentityDocument
draft = record {
  id = [];
  tenant_id = codes " acme";
  document_id = [];
  person_id = codes "ada";
  document_type = [];
  country_code = [];
  national_id = codes "a123456";
  serial_number = [];
  name = record { english = codes "Ada"; dhivehi = [] };
  common_name = no_text;
  sex = codes "f";
  date_of_birth = codes "1990-02-28";
  address = record { house = no_text; island = no_text };
  blood_group = [];
  expiry_date = [];
  signature_present = true;
  fingerprint_present = false;
  source = [];
  extraction_method = [];
  field_confidence = [];
  verification_status = [];
  verified_by = [];
  front_image_ref = [];
  back_image_ref = [];
  version = pos 0;
  created_at = noon;
  updated_at = noon;
}

abbrev ids : Ids
ids = record { object = codes "o"; key = codes "k"; event = codes "e" }

abbrev State : Type 0
State = Cabinet (List Person) (List IdentityDocument) (List IdentityDocumentHistory)

abbrev empty : State
empty = record { people = ada ∷ []; documents = []; history = [] }

abbrev stored : IdentityDocument
stored = record draft {
  id = codes "o";
  tenant_id = codes "acme";
  document_id = codes "doc_k";
  document_type = codes "maldives_national_id";
  country_code = codes "MDV";
  national_id = codes "A123456";
  sex = codes "F";
  source = codes "manual-admin";
  extraction_method = codes "manual";
  verification_status = codes "unverified";
  version = pos 1;
}

abbrev out : State × Result IdentityDocument
out = save_document memory memory memory true draft (codes "admin") noon ids empty

out_ok : out ≡ (out.0, ok stored)
unfolding code
out_ok = refl

save_document-valid_example :
    Memᴰ stored out.0.documents
    × (stored ≡ in_place_of (with_standards (normalized draft)) stored)
    × (is_valid stored ≡ true)
unfolding code
save_document-valid_example =
    save_document-valid memory memory memory memory-IsMongo memory-IsMongo memory-IsMongo true draft
      (codes "admin") noon ids empty out.0 stored out_ok

-- The next version, of what was stored.
abbrev one_stored : State
one_stored = record {
  people = ada ∷ [];
  documents = stored ∷ [];
  history = history_entry true (codes "admin") noon ids stored ∷ [];
}

abbrev changed : IdentityDocument
changed = record stored { sex = codes "M" }

abbrev next_out : State × Result IdentityDocument
next_out = save_identity_document memory memory memory changed (codes "admin") noon ids one_stored

abbrev second : IdentityDocument
second = record changed { version = pos 2 }

next_ok : next_out ≡ (next_out.0, ok second)
unfolding code
next_ok = refl

save_identity_document-Recorded_example :
    (any (is_person changed.tenant_id changed.person_id) one_stored.people ≡ true)
    × Memᴰ second next_out.0.documents
    × Saved memory memory memory changed (codes "admin") noon ids one_stored next_out.0 second
unfolding code
save_identity_document-Recorded_example =
    save_identity_document-Recorded memory memory memory memory-IsMongo memory-IsMongo
      memory-IsMongo changed (codes "admin") noon ids one_stored next_out.0 second next_ok

one_stored-IsArchived : IsArchived memory memory memory one_stored
unfolding code
one_stored-IsArchived =
    ((history_entry true (codes "admin") noon ids stored, Memᴰ.head refl, refl, refl), tt)

save_identity_document-IsArchived_example : IsArchived memory memory memory next_out.0
save_identity_document-IsArchived_example =
    save_identity_document-IsArchived memory memory memory memory-IsMongo memory-IsMongo
      memory-IsMongo changed (codes "admin") noon ids one_stored next_out.0 second
      one_stored-IsArchived next_ok
