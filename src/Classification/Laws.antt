-- ===== src/Classification/Laws.antt =====
-- What the cache finds.
use kd_server.Common.{
  ◌≡◌, refl, sym, ap, ◌∙◌, inl, inr, true, false, Option, none, some, List, [], ◌∷◌, arith,
  if◌then◌else◌, Bool-cases, Result-cases, Result, ok, ◌>>=◌,
}
use kd_server.Text.{Text, same, same_iff}
use kd_server.Classification.{
  AssetCategory, ClassificationService, put, lookup, fill, new_classification_service, get_category,
}

lookup-put :
    (k j : Text) (cat : AssetCategory) (m : List (Text × AssetCategory))
    → lookup k (put j cat m) ≡ (if same j k then some cat else lookup k m)
unfolding lookup put
lookup-put k j cat [] = refl
lookup-put k j cat ((i, old) ∷ m) = elim (Bool-cases (same i j)) [
  | inl one ↦
      let alike : same i k ≡ same j k = ap (λ x. same x k) ((same_iff i j).0 one) in
      elim (Bool-cases (same j k)) [
        | inl here ↦ simp (one, here)
        | inr elsewhere ↦ simp (one, alike, elsewhere)
      ]
  | inr two ↦ elim (Bool-cases (same i k)) [
    | inl here ↦
        let not_j : same j k ≡ false = elim (Bool-cases (same j k)) [
          | inl there ↦ absurd (
              let one : same i j ≡ true =
                (same_iff i j).1 ((same_iff i k).0 here ∙ sym ((same_iff j k).0 there)) in
              cc (one, two))
          | inr elsewhere ↦ elsewhere
        ] in
        simp (two, here, not_j)
    | inr elsewhere ↦ simp (two, elsewhere, lookup-put k j cat m)
  ]
]

-- The last category with the code.
abbrev pub last_with : Text → List AssetCategory → Option AssetCategory → Option AssetCategory
last_with k [] found = found
last_with k (cat ∷ cats) found = last_with k cats (if same cat.code k then some cat else found)

lookup-fill :
    (k : Text) (cats : List AssetCategory) (m : List (Text × AssetCategory))
    → lookup k (fill cats m) ≡ last_with k cats (lookup k m)
unfolding fill
lookup-fill k [] m = refl
lookup-fill k (cat ∷ cats) m =
    lookup-fill k cats (put cat.code cat m) ∙ ap (last_with k cats) (lookup-put k cat.code cat m)

-- A service that was made from the categories of a file finds, for each code, the last of the
-- categories with that code, and nothing where no category has it.
pub get_category-new :
    (file : Result Text) (parse : Text → Result (List AssetCategory)) (cats : List AssetCategory)
    (s : ClassificationService)
    → (file >>= parse) ≡ ok cats
    → new_classification_service file parse ≡ ok s
    → (k : Text) → get_category s k ≡ last_with k cats none
unfolding new_classification_service get_category
get_category-new file parse cats s parsed made k =
    let filled : s.cache ≡ fill cats [] = elim (Result-cases file) [
      | inl (t, read) ↦ elim (Result-cases (parse t)) [
        | inl (cs, good) ↦ ground arith
        | inr (e, bad) ↦ absurd (ground arith)
      ]
      | inr (e, failed) ↦ absurd (ground arith)
    ] in
    ap (lookup k) filled ∙ lookup-fill k cats []
