-- ===== src/Document/Checks.antt =====
-- What the checks of the service guarantee of a stored document.
use kd_server.Common.{
  ◌≡◌, refl, sym, ap, inl, inr, Bool, true, false, not, ◌&&◌, ◌||◌, Memᴰ, arith, Bool-cases, Result,
  ok, message,
}
use kd_server.Text.{Text, codes, is_empty, trim_space, Casing}
use kd_server.Mongo.{Collection}
use kd_server.Mongo.Laws.{IsMongo, after-eq-ok, require-eq-ok}
use kd_server.Time.{Time}
use kd_server.Person.{Person}
use kd_server.Document.{IdentityDocument, IdentityDocumentHistory, Cabinet, Ids}
use kd_server.Document.Service.{
  valid_verification_status, or_default, normalized, with_standards, valid_optional_date, checked,
  save_document,
}
use mathlib.Core.Path.{subst}
use kd_server.Document.Archive.{save_identity_document-Recorded}
use kd_server.Document.Laws.{in_place_of}

-- A document as the service promises it.
abbrev pub is_valid : IdentityDocument → Bool
is_valid d =
    not (is_empty d.tenant_id)
    && not (is_empty d.person_id)
    && not (is_empty d.national_id)
    && not (is_empty d.name.english && is_empty d.name.dhivehi)
    && not (is_empty d.source)
    && not (is_empty d.extraction_method)
    && valid_verification_status d.verification_status
    && valid_optional_date d.date_of_birth
    && valid_optional_date d.expiry_date

given_default :
    (standard value : Text)
    → is_empty standard ≡ false
    → is_empty (or_default standard value) ≡ false
given_default standard value h = elim (Bool-cases (is_empty value)) [
  | inl y ↦ rw y h
  | inr n ↦ rw n n
]

checked-valid :
    {S : Type 0} (n d : IdentityDocument) (s s' : S)
    → checked n s ≡ (s', ok d)
    → (s ≡ s') × (d ≡ with_standards n) × (is_valid d ≡ true)
unfolding checked with_standards
checked-valid {S = S} n d s s' h =
    let (ids_given, h1) =
      require-eq-ok (not (is_empty n.tenant_id || is_empty n.person_id))
        (message "services: tenant and person ID are required") s _ h in
    let (national_given, h2) =
      require-eq-ok (not (is_empty n.national_id)) (message "services: national ID is required") s _
        h1 in
    let (named, h3) =
      require-eq-ok (not (is_empty n.name.english && is_empty n.name.dhivehi))
        (message "services: at least one name is required") s _ h2 in
    let w : IdentityDocument = with_standards n in
    let (status_ok, h4) =
      require-eq-ok (valid_verification_status w.verification_status)
        (message "services: invalid verification status") s _ h3 in
    let (birth_ok, h5) =
      require-eq-ok (valid_optional_date w.date_of_birth)
        (message "services: date of birth must use YYYY-MM-DD") s _ h4 in
    let (expiry_ok, h6) =
      require-eq-ok (valid_optional_date w.expiry_date)
        (message "services: expiry date must use YYYY-MM-DD") s _ h5 in
    let answer : w ≡ d = cc (ap (λ (x : S × Result IdentityDocument). x.1) h6) in
    let source_given : is_empty w.source ≡ false =
      given_default (codes "manual-admin") n.source refl in
    let method_given : is_empty w.extraction_method ≡ false =
      given_default (codes "manual") n.extraction_method refl in
    let whole : is_valid w ≡ true =
      rw (source_given, method_given, national_given, named, status_ok, birth_ok, expiry_ok)
        (ground arith) in
    (
      ap (λ (x : S × Result IdentityDocument). x.0) h6,
      sym answer,
      subst (λ (x : IdentityDocument). is_valid x ≡ true) answer whole,
    )

module _ ⦃u : Casing⦄ {P D H : Type 0} (people : Collection P Person)
    (documents : Collection D IdentityDocument) (history : Collection H IdentityDocumentHistory)
    (mongo_people : IsMongo people) (mongo_documents : IsMongo documents)
    (mongo_history : IsMongo history) where
  -- A save through the service that succeeds has stored the document that it returns: the normalized one
  -- with the defaults, but for its ids, version and times. It has a tenant, a person, a national id, a
  -- name, a source and a method, one of the three verification statuses, and no date that does not exist.
  pub save_document-valid :
      (store : Bool) (document : IdentityDocument) (actor : Text) (now : Time) (ids : Ids)
      (s s' : Cabinet P D H) (d : IdentityDocument)
      → save_document people documents history store document actor now ids s ≡ (s', ok d)
      → Memᴰ d (documents.docs s'.documents)
        × (d ≡ in_place_of (with_standards (normalized document)) d)
        × (is_valid d ≡ true)
  unfolding save_document
  save_document-valid store document actor now ids s s' d h =
      let (_, h1) =
        require-eq-ok store (message "services: identity document store not configured") s _ h in
      let one : Cabinet P D H × Result IdentityDocument = checked (normalized document) s in
      let (w, passed, h2) = after-eq-ok one _ h1 in
      let (unread, standard, whole) =
        checked-valid (normalized document) w s one.0 (ap (λ x. (one.0, x)) passed) in
      let (_, there, (_, content, _)) =
        save_identity_document-Recorded people documents history mongo_people mongo_documents
          mongo_history w (trim_space actor) now ids one.0 s' d h2 in
      let same_content : d ≡ in_place_of (with_standards (normalized document)) d =
        subst (λ x. d ≡ in_place_of x d) standard content in
      (there, same_content, subst (λ (x : IdentityDocument). is_valid x ≡ true) (sym content) whole)
