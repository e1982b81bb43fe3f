-- ===== src/Document/Service.antt =====
-- internal/services/identity_document.go: the checks in front of the store.
use kd_server.Common.{
  Bool, false, not, ◌&&◌, ◌||◌, Option, none, some, List, if◌then◌else◌, message,
}
use kd_server.Text.{Text, codes, same, is_empty, is_blank, trim_space, Casing, to_lower, to_upper}
use kd_server.Mongo.{Action, ◌>>=◌, ◌>>◌, pure, require, Collection}
use kd_server.Time.{Time, parse_date, format_date}
use kd_server.Ingest.{tenant_required}
use kd_server.Format.{ℤ}
use kd_server.Person.{Person}
use kd_server.Document.{
  LocalizedText, IdentityDocument, IdentityDocumentHistory, Cabinet, Ids, list_identity_documents,
  save_identity_document,
}

-- `time.Parse` followed by `Format` gives the text again.
abbrev pub reprinted : Text → Option Time → Bool
reprinted value none = false
reprinted value (some t) = same (format_date t) value

unfoldable pub valid_iso_date : Text → Bool
unfolding parse_date format_date
valid_iso_date value = reprinted value (parse_date value)

unfoldable pub valid_verification_status : Text → Bool
valid_verification_status status =
    same status (codes "unverified")
    || same status (codes "verified")
    || same status (codes "rejected")

abbrev pub or_default : Text → Text → Text
or_default standard value = if is_empty value then standard else value

abbrev pub trimmed : LocalizedText → LocalizedText
trimmed t = record { english = trim_space t.english; dhivehi = trim_space t.dhivehi }

module _ ⦃u : Casing⦄ where
  -- The assignments in front of the checks.
  unfoldable pub normalized : IdentityDocument → IdentityDocument
  normalized d = record d {
    tenant_id = trim_space d.tenant_id;
    person_id = trim_space d.person_id;
    document_id = trim_space d.document_id;
    document_type = codes "maldives_national_id";
    country_code = codes "MDV";
    national_id = to_upper (trim_space d.national_id);
    serial_number = trim_space d.serial_number;
    name = trimmed d.name;
    common_name = trimmed d.common_name;
    sex = to_upper (trim_space d.sex);
    source = trim_space d.source;
    extraction_method = trim_space d.extraction_method;
    verification_status = to_lower (trim_space d.verification_status);
    verified_by = trim_space d.verified_by;
    front_image_ref = trim_space d.front_image_ref;
    back_image_ref = trim_space d.back_image_ref;
  }

-- The defaults behind the first checks.
unfoldable pub with_standards : IdentityDocument → IdentityDocument
with_standards d = record d {
  source = or_default (codes "manual-admin") d.source;
  extraction_method = or_default (codes "manual") d.extraction_method;
  verification_status = or_default (codes "unverified") d.verification_status;
}

abbrev pub valid_optional_date : Text → Bool
valid_optional_date value = is_empty value || valid_iso_date value

module _ {D : Type 0} (documents : Collection D IdentityDocument) where
  unfoldable pub list_documents :
      (store : Bool) → Text → Text → ℤ → Action D (List IdentityDocument)
  list_documents store tenant person limit = do
    require store (message "services: identity document store not configured")
    require (not (is_blank tenant)) tenant_required
    list_identity_documents documents (trim_space tenant) (trim_space person) limit

-- The checks of `Save`; what it goes on with.
unfoldable pub checked : {S : Type 0} → IdentityDocument → Action S IdentityDocument
unfolding with_standards valid_verification_status valid_iso_date
checked n = do
  require (not (is_empty n.tenant_id || is_empty n.person_id))
      (message "services: tenant and person ID are required")
  require (not (is_empty n.national_id)) (message "services: national ID is required")
  require (not (is_empty n.name.english && is_empty n.name.dhivehi))
      (message "services: at least one name is required")
  let d = with_standards n
  require (valid_verification_status d.verification_status)
      (message "services: invalid verification status")
  require (valid_optional_date d.date_of_birth)
      (message "services: date of birth must use YYYY-MM-DD")
  require (valid_optional_date d.expiry_date) (message "services: expiry date must use YYYY-MM-DD")
  pure d

module _ ⦃u : Casing⦄ {P D H : Type 0} (people : Collection P Person)
    (documents : Collection D IdentityDocument)
    (history : Collection H IdentityDocumentHistory) where
  unfoldable pub save_document :
      (store : Bool)
      → IdentityDocument
      → Text
      → (now : Time) → (ids : Ids) → Action (Cabinet P D H) IdentityDocument
  unfolding normalized checked
  save_document store document actor now ids = do
    require store (message "services: identity document store not configured")
    d ← checked (normalized document)
    save_identity_document people documents history d (trim_space actor) now ids
