-- ===== src/Document/Archive.antt =====
-- The history of the identity documents: the snapshots that the saves leave.
use kd_server.Common.{
  ℕ, ◌≡◌, refl, sym, inl, inr, Bool, true, false, List, [], ◌∷◌, ◌++◌, Memᴰ, arith, ◌==◌,
  Bool-cases, length, any, keep, All, All-append, All-map, All-mem, ok, All-left, All-right,
}
use kd_server.Text.{Text, is_blank}
use kd_server.Mongo.{Collection}
use kd_server.Mongo.Laws.{IsMongo, Updated, missed, hit}
use kd_server.Time.{Time}
use kd_server.Person.{Person}
use kd_server.Person.Laws.{is_person}
use kd_server.Document.{
  IdentityDocument, IdentityDocumentHistory, Cabinet, Ids, history_entry, save_identity_document,
}
use kd_server.Document.Laws.{Saved, save-parts}
use mathlib.Core.Path.{subst}

-- A snapshot of the document is in the history.
abbrev pub Recorded : List IdentityDocumentHistory → IdentityDocument → Type 0
Recorded hs d =
    (e : IdentityDocumentHistory) × Memᴰ e hs × (e.snapshot ≡ d) × (e.version ≡ d.version)

mem-append : {A : Type 0} {a : A} (xs ys : List A) → Memᴰ a xs → Memᴰ a (xs ++ ys)
mem-append [] ys m = elim m [ ]
mem-append (x ∷ xs) ys (Memᴰ.head q) = Memᴰ.head q
mem-append (x ∷ xs) ys (Memᴰ.tail m) = Memᴰ.tail (mem-append xs ys m)

mem-middle : {A : Type 0} (xs : List A) (a : A) (ys : List A) → Memᴰ a (xs ++ a ∷ ys)
mem-middle [] a ys = Memᴰ.head refl
mem-middle (x ∷ xs) a ys = Memᴰ.tail (mem-middle xs a ys)

Recorded-later :
    (hs : List IdentityDocumentHistory) (e : IdentityDocumentHistory) (d : IdentityDocument)
    → Recorded hs d
    → Recorded (hs ++ e ∷ []) d
Recorded-later hs e d (f, m, shot, version) = (f, mem-append hs (e ∷ []) m, shot, version)

-- What holds of every document, and of the new one, holds of every document behind the update.
Updated-All :
    {D : Type 0} (Q : D → Type 0) {p : D → Bool} {f : D → D} {ds ds' : List D} {n : ℕ}
    → ((d : D) → Q (f d))
    → Updated p f ds n ds'
    → All Q ds
    → All Q ds'
Updated-All Q made (missed _ _ after_eq) h = subst (All Q) (sym after_eq) h
Updated-All Q {f = f} made (hit xs d ys _ _ before_eq after_eq) h =
    let old : All Q (xs ++ d ∷ ys) = subst (All Q) before_eq h in
    subst (All Q) (sym after_eq) (
      All-append Q xs (f d ∷ ys) (All-left Q xs (d ∷ ys) old)
        (made d, (All-right Q xs (d ∷ ys) old).1))

Updated-new :
    {D : Type 0} {p : D → Bool} {new old : D} {ds ds' : List D} {n : ℕ}
    → Memᴰ old ds
    → p old ≡ true
    → Updated p (λ _. new) ds n ds'
    → Memᴰ new ds'
Updated-new {p = p} {old = old} {ds = ds} m fits (missed no_hit _ _) =
    absurd (let z : p old ≡ false = All-mem (λ d. p d ≡ false) ds no_hit m in ground arith)
Updated-new {new = new} m fits (hit xs d ys _ _ _ after_eq) =
    subst (Memᴰ new) (sym after_eq) (mem-middle xs new ys)

any-keep :
    {D : Type 0} (p : D → Bool) (ds : List D) → (length (keep p ds) == 0) ≡ false → any p ds ≡ true
any-keep p [] h = ground arith
any-keep p (d ∷ ds) h = elim (Bool-cases (p d)) [
  | inl y ↦ rw y refl
  | inr n ↦ rw n (any-keep p ds (rw n at h))
]

module _ {P D H : Type 0} (people : Collection P Person) (documents : Collection D IdentityDocument)
    (history : Collection H IdentityDocumentHistory) where
  -- Every stored document has its snapshot.
  abbrev pub IsArchived : Cabinet P D H → Type 0
  IsArchived s = All (Recorded (history.docs s.history)) (documents.docs s.documents)

  module _ (mongo_people : IsMongo people) (mongo_documents : IsMongo documents)
      (mongo_history : IsMongo history) where
    -- A save that succeeds was of a document of a stored person of the tenant. It returns what it stored:
    -- the content of the document as the first version, or as the version behind the stored one of the same
    -- tenant and key, whose id and time of creation stay; and the history has one entry more, with that version and its snapshot.
    pub save_identity_document-Recorded :
        (document : IdentityDocument) (actor : Text) (now : Time) (ids : Ids) (s s' : Cabinet P D H)
        (d : IdentityDocument)
        → save_identity_document people documents history document actor now ids s ≡ (s', ok d)
        → (any (is_person document.tenant_id document.person_id) (people.docs s.people) ≡ true)
          × Memᴰ d (documents.docs s'.documents)
          × Saved people documents history document actor now ids s s' d
    save_identity_document-Recorded document actor now ids s s' d h =
        let (saved, n, counted, some_person) =
          save-parts people documents history mongo_documents mongo_history document actor now ids s
            s' d h in
        let of_person : Person → Bool = is_person document.tenant_id document.person_id in
        let exact : n ≡ length (keep of_person (people.docs s.people)) =
          mongo_people.count_exact of_person s.people n counted in
        (
          any-keep of_person (people.docs s.people)
              (subst (λ k. (k == 0) ≡ false) exact some_person),
          elim saved.0 [
            | inl (_, _, added) ↦
                subst (Memᴰ d) (sym added) (mem-middle (documents.docs s.documents) d [])
            | inr (old, there, fits, _, _, _, n', updated) ↦ Updated-new there fits updated
          ],
          saved,
        )

    -- If every stored document has its snapshot in the history, so has every one behind a save that
    -- succeeds, with its version.
    pub save_identity_document-IsArchived :
        (document : IdentityDocument) (actor : Text) (now : Time) (ids : Ids) (s s' : Cabinet P D H)
        (d : IdentityDocument)
        → IsArchived s
        → save_identity_document people documents history document actor now ids s ≡ (s', ok d)
        → IsArchived s'
    save_identity_document-IsArchived document actor now ids s s' d archived h =
        let (stored, _, recorded) =
          (save-parts people documents history mongo_documents mongo_history document actor now ids
            s s' d h).0 in
        let event : IdentityDocumentHistory =
          history_entry (is_blank document.document_id) actor now ids d in
        let hs : List IdentityDocumentHistory = history.docs s.history in
        let Kept : IdentityDocument → Type 0 = Recorded (hs ++ event ∷ []) in
        let before_kept : All Kept (documents.docs s.documents) =
          All-map (Recorded-later hs event) (documents.docs s.documents) archived in
        let own : Kept d = (event, mem-middle hs event [], refl, refl) in
        let kept : All Kept (documents.docs s'.documents) = elim stored [
          | inl (_, _, added) ↦
              subst (All Kept) (sym added)
                (All-append Kept (documents.docs s.documents) (d ∷ []) before_kept (own, tt))
          | inr (_, _, _, _, _, _, _, updated) ↦ Updated-All Kept (λ _. own) updated before_kept
        ] in
        subst (λ l. All (Recorded l) (documents.docs s'.documents)) (sym recorded) kept
