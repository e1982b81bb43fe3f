-- ===== src/Document/Laws.antt =====
-- What the save of an identity document leaves in its collections.
use kd_server.Common.{
  ℕ, ◌≡◌, refl, sym, ap, ◌⊎◌, inl, inr, Bool, true, false, not, ◌&&◌, List, [], ◌∷◌, ◌++◌, Memᴰ,
  arith, ◌==◌, Result, ok, message, wrap,
}
use kd_server.Text.{Text, is_blank}
use kd_server.Mongo.{reading, writing, Collection}
use kd_server.Mongo.Laws.{IsMongo, Updated, after-eq-ok, require-eq-ok, on_error-eq-ok}
use kd_server.Time.{Time}
use kd_server.Tenant.{not_configured}
use kd_server.Format.{pos, next_int}
use kd_server.Person.{Person}
use kd_server.Person.Laws.{is_person}
use kd_server.Document.{
  IdentityDocument, IdentityDocumentHistory, Cabinet, on_people, on_documents, on_history, Ids,
  has_document, missing_document, first_version, next_version, history_entry, versioned,
  put_document, save_identity_document,
}
use mathlib.Core.Path.{subst}

-- The content of one document with the ids, the version and the times of another.
abbrev pub in_place_of : IdentityDocument → IdentityDocument → IdentityDocument
in_place_of content d = record content {
  id = d.id;
  document_id = d.document_id;
  version = d.version;
  created_at = d.created_at;
  updated_at = d.updated_at;
}

-- A new document: the first version, added to the others.
abbrev pub Created :
    IdentityDocument → List IdentityDocument → List IdentityDocument → IdentityDocument → Type 0
Created document ds ds' d =
    (is_blank document.document_id ≡ true) × (d.version ≡ pos 1) × (ds' ≡ ds ++ d ∷ [])

-- The next version of a stored document of the same tenant and key, in the place of one of that key.
abbrev pub Replaced :
    IdentityDocument → List IdentityDocument → List IdentityDocument → IdentityDocument → Type 0
Replaced document ds ds' d =
    (old : IdentityDocument) × Memᴰ old ds
    × (has_document document.tenant_id document.document_id old ≡ true)
    × (d.version ≡ next_int old.version)
    × (d.id ≡ old.id)
    × (d.created_at ≡ old.created_at)
    × (n : ℕ) × Updated (has_document document.tenant_id document.document_id) (λ _. d) ds n ds'

module _ {D : Type 0} (documents : Collection D IdentityDocument) (mongo : IsMongo documents) where
  put_document-Updated :
      (d : IdentityDocument) (s s' : D)
      → put_document documents false d s ≡ (s', ok tt)
      → (n : ℕ) × Updated
          (has_document d.tenant_id d.document_id)
          (λ _. d)
          (documents.docs s)
          n
          (documents.docs s')
  unfolding put_document
  put_document-Updated d s s' h =
      let one : D × Result ℕ =
        writing (wrap "store: update identity document")
          (documents.update_one (has_document d.tenant_id d.document_id) (λ _. d)) s in
      let (n, updated, h1) = after-eq-ok one _ h in
      (
        n,
        subst
            (λ x.
              Updated (has_document d.tenant_id d.document_id) (λ _. d) (documents.docs s) n
                (documents.docs x))
            (ap (λ (x : D × Result (Unit {0})). x.0) h1)
            (mongo.update_one_done _ (λ _. d) s n
              (on_error-eq-ok (wrap "store: update identity document") _ updated)),
      )

  -- The two writes of a save, from the version on.
  written-Stored :
      (is_new : Bool) (document : IdentityDocument) (now : Time) (ids : Ids) (s s1 s2 : D)
      (d : IdentityDocument)
      → is_blank document.document_id ≡ is_new
      → versioned documents is_new now ids document s ≡ (s1, ok d)
      → put_document documents is_new d s1 ≡ (s2, ok tt)
      → (Created document (documents.docs s) (documents.docs s2) d
          ⊎ Replaced document (documents.docs s) (documents.docs s2) d)
        × (d ≡ in_place_of document d)
  unfolding versioned put_document
  written-Stored true document now ids s s1 s2 d b h g =
      let made : first_version now ids document ≡ d =
        cc (ap (λ (x : D × Result IdentityDocument). x.1) h) in
      let unread : s ≡ s1 = ap (λ (x : D × Result IdentityDocument). x.0) h in
      let done : (documents.insert_one d s1).1 ≡ ok tt =
        on_error-eq-ok (wrap "store: insert identity document") _
          (ap (λ (x : D × Result (Unit {0})). x.1) g) in
      let added : documents.docs s2 ≡ documents.docs s1 ++ d ∷ [] =
        subst (λ x. documents.docs x ≡ documents.docs s1 ++ d ∷ [])
          (ap (λ (x : D × Result (Unit {0})). x.0) g) (mongo.insert_one_done d s1 done) in
      (
        inl (
          b,
          ap (λ (x : IdentityDocument). x.version) (sym made),
          subst (λ x. documents.docs s2 ≡ documents.docs x ++ d ∷ []) (sym unread) added,
        ),
        subst (λ (x : IdentityDocument). x ≡ in_place_of document x) made refl,
      )
  written-Stored false document now ids s s1 s2 d b h g =
      let one : D × Result IdentityDocument =
        reading missing_document
          (documents.find_one (has_document document.tenant_id document.document_id)) s in
      let (old, found, h1) = after-eq-ok one _ h in
      let made : next_version now old document ≡ d =
        cc (ap (λ (x : D × Result IdentityDocument). x.1) h1) in
      let unread : s ≡ s1 = ap (λ (x : D × Result IdentityDocument). x.0) h1 in
      let (there, fits) = mongo.find_one_found _ s old (on_error-eq-ok missing_document _ found) in
      let (n, updated) = put_document-Updated d s1 s2 g in
      let of_tenant : d.tenant_id ≡ document.tenant_id =
        ap (λ (x : IdentityDocument). x.tenant_id) (sym made) in
      let of_key : d.document_id ≡ document.document_id =
        ap (λ (x : IdentityDocument). x.document_id) (sym made) in
      let at_key : Updated (has_document document.tenant_id document.document_id) (λ _. d)
          (documents.docs s1) n (documents.docs s2) =
        subst
          (λ k.
            Updated (has_document document.tenant_id k) (λ _. d) (documents.docs s1) n
              (documents.docs s2))
          of_key
          (subst
            (λ t.
              Updated (has_document t d.document_id) (λ _. d) (documents.docs s1) n
                (documents.docs s2))
            of_tenant updated) in
      (
        inr (
          old,
          there,
          fits,
          ap (λ (x : IdentityDocument). x.version) (sym made),
          ap (λ (x : IdentityDocument). x.id) (sym made),
          ap (λ (x : IdentityDocument). x.created_at) (sym made),
          n,
          subst
              (λ x.
                Updated (has_document document.tenant_id document.document_id) (λ _. d)
                  (documents.docs x) n (documents.docs s2))
              (sym unread) at_key,
        ),
        subst (λ (x : IdentityDocument). x ≡ in_place_of document x) made refl,
      )

module _ {P D H : Type 0} (people : Collection P Person) (documents : Collection D IdentityDocument)
    (history : Collection H IdentityDocumentHistory) where
  -- What a save that succeeds has done, from the one state to the other.
  abbrev pub Saved :
      IdentityDocument
      → Text
      → Time
      → Ids
      → Cabinet P D H
      → Cabinet P D H
      → IdentityDocument
      → Type 0
  Saved document actor now ids s s' d =
      (Created document (documents.docs s.documents) (documents.docs s'.documents) d
        ⊎ Replaced document (documents.docs s.documents) (documents.docs s'.documents) d)
      × (d ≡ in_place_of document d)
      × (history.docs s'.history
          ≡ history.docs s.history
            ++ history_entry (is_blank document.document_id) actor now ids d ∷ [])

  pub save-parts :
      IsMongo documents
      → IsMongo history
      → (document : IdentityDocument) (actor : Text) (now : Time) (ids : Ids) (s s' : Cabinet P D H)
        (d : IdentityDocument)
      → save_identity_document people documents history document actor now ids s ≡ (s', ok d)
      → Saved document actor now ids s s' d
        × (n : ℕ) × (people.count (is_person document.tenant_id document.person_id) s.people ≡ ok n)
        × ((n == 0) ≡ false)
  unfolding save_identity_document
  save-parts mongo_documents mongo_history document actor now ids s s' d h =
      let is_new : Bool = is_blank document.document_id in
      let (_, h1) =
        require-eq-ok (people.configured && documents.configured && history.configured)
          not_configured s _ h in
      let one : Cabinet P D H × Result ℕ =
        on_people
          (reading (wrap "store: verify identity document person")
            (people.count (is_person document.tenant_id document.person_id)))
          s in
      let (n, counted, h2) = after-eq-ok one _ h1 in
      let (some_person, h3) =
        require-eq-ok (not (n == 0)) (message "store: linked person not found") one.0 _ h2 in
      let two : Cabinet P D H × Result IdentityDocument =
        on_documents (versioned documents is_new now ids document) one.0 in
      let (e, version_ok, h4) = after-eq-ok two _ h3 in
      let three : Cabinet P D H × Result (Unit {0}) =
        on_documents (put_document documents is_new e) two.0 in
      let (_, put_ok, h5) = after-eq-ok three _ h4 in
      let four : Cabinet P D H × Result (Unit {0}) =
        on_history
          (writing (wrap "store: insert identity document history")
            (history.insert_one (history_entry is_new actor now ids e)))
          three.0 in
      let (_, event_ok, h6) = after-eq-ok four _ h5 in
      let state : four.0 ≡ s' = ap (λ (x : Cabinet P D H × Result IdentityDocument). x.0) h6 in
      let answer : e ≡ d = cc (ap (λ (x : Cabinet P D H × Result IdentityDocument). x.1) h6) in
      let (stored, content) =
        written-Stored documents mongo_documents is_new document now ids s.documents two.0.documents
          three.0.documents e refl (ap (λ x. (two.0.documents, x)) version_ok)
          (ap (λ x. (three.0.documents, x)) put_ok) in
      let recorded : history.docs four.0.history
          ≡ history.docs s.history ++ history_entry is_new actor now ids e ∷ [] =
        mongo_history.insert_one_done _ s.history
          (on_error-eq-ok (wrap "store: insert identity document history") _ event_ok) in
      let base : Saved document actor now ids s four.0 e = (stored, content, recorded) in
      (
        subst (Saved document actor now ids s s') answer
            (subst (λ x. Saved document actor now ids s x e) state base),
        n,
        on_error-eq-ok (wrap "store: verify identity document person") _ counted,
        ground arith,
      )
