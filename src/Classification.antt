-- ===== src/Classification.antt =====
-- internal/services/classification.go: the hierarchy of asset classes. The embedded file
-- classification_data.json is data, an argument; the cache maps a code to the last category with it.
pub mod Laws
mod Tests
use kd_server.Common.{
  ℕ, zero, suc, ◌+◌, ◌-◌, ◌*◌, ◌/◌, ◌%◌, ◌^◌, ◌≤◌, ◌<◌, String, ◌≡◌, refl, sym, ap, ◌∙◌, ◌≢◌, ◌↔◌,
  ◌⊎◌, inl, inr, Bool, true, false, not, ◌&&◌, ◌||◌, Option, none, some, List, [], ◌∷◌, ◌++◌, map,
  Memᴰ, arith, ltb, leb, ◌==◌, ==_iff, within, if◌then◌else◌, Bool-cases, Option-cases,
  Result-cases, length, take, drop, any, all, keep, length-append, All, All-append, All-map,
  All-mem, Result, ok, err, Error, message, about, wrap, fault, no_documents, duplicate_key,
  is_no_documents, ◌>>=◌, ◌>>◌,
}
use kd_server.Text.{
  Text, codes, same, is_empty, is_blank, is_space, trim_space, Casing, to_lower, to_upper,
  has_prefix, trim_prefix, cut, same_iff, same_refl,
}
use kd_server.Mongo.{on_error}

pub record AssetType : Type 0 where
  pub code : Text
  pub name : Text

pub record AssetSubcategory : Type 0 where
  pub code : Text
  pub name : Text
  pub types : List AssetType

pub record AssetCategory : Type 0 where
  pub code : Text
  pub name : Text
  pub description : Text
  pub subcategories : List AssetSubcategory

abbrev Cache : Type 0
Cache = List (Text × AssetCategory)

-- `svc.cache[code] = cat`
pub put : Text → AssetCategory → Cache → Cache
put k cat [] = (k, cat) ∷ []
put k cat ((j, old) ∷ m) =
    let rest = put k cat m in if same j k then (k, cat) ∷ m else (j, old) ∷ rest

pub lookup : Text → Cache → Option AssetCategory
lookup k [] = none
lookup k ((j, cat) ∷ m) = if same j k then some cat else lookup k m

-- `data` is nil only in a service that was not made by `NewClassificationService`.
pub record ClassificationService : Type 0 where
  pub data_categories : Option (List AssetCategory)
  pub cache : Cache

pub fill : List AssetCategory → Cache → Cache
unfolding put
fill [] m = m
fill (cat ∷ cats) m = fill cats (put cat.code cat m)

-- From what reading and parsing the embedded file returned.
unfoldable pub new_classification_service :
    (file : Result Text)
    → (parse : Text → Result (List AssetCategory)) → Result ClassificationService
unfolding fill
new_classification_service file parse = do
  data_text ← on_error (wrap "failed to read classification data") file
  cats ← on_error (wrap "failed to parse classification data") (parse data_text)
  ok (record { data_categories = some cats; cache = fill cats [] })

unfoldable pub get_all_categories : ClassificationService → Result (List AssetCategory)
get_all_categories s = elim s.data_categories [
  | none ↦ err (message "classification data not loaded")
  | some cats ↦ ok cats
]

unfoldable pub get_category : ClassificationService → Text → Option AssetCategory
unfolding lookup
get_category s category_code = lookup category_code s.cache

unfoldable pub validate_category_code : ClassificationService → Text → Bool
unfolding get_category
validate_category_code s category_code = elim (get_category s category_code) [
  | none ↦ false
  | some _ ↦ true
]

pub find_type : Text → List AssetType → Option AssetType
find_type k [] = none
find_type k (t ∷ ts) = if same t.code k then some t else find_type k ts

-- The first type with the code, in the order of the subcategories.
pub type_in : Text → List AssetSubcategory → Option AssetType
unfolding find_type
type_in k [] = none
type_in k (sub ∷ subs) =
    let rest = type_in k subs in elim (find_type k sub.types) [ none ↦ rest | some t ↦ some t ]

pub subcategory_in : Text → List AssetSubcategory → Option AssetSubcategory
subcategory_in k [] = none
subcategory_in k (sub ∷ subs) = if same sub.code k then some sub else subcategory_in k subs

abbrev of_category {ℓ} :
    {A : Type ℓ} → Option AssetCategory → (List AssetSubcategory → Option A) → Option A
of_category none f = none
of_category (some cat) f = f cat.subcategories

unfoldable pub validate_type_code : ClassificationService → Text → Text → Bool
unfolding get_category type_in
validate_type_code s category_code type_code =
    elim (of_category (get_category s category_code) (type_in type_code)) [
      | none ↦ false
      | some _ ↦ true
    ]

unfoldable pub get_type_name : ClassificationService → Text → Text → Text
unfolding get_category type_in
get_type_name s category_code type_code =
    elim (of_category (get_category s category_code) (type_in type_code)) [
      | none ↦ []
      | some t ↦ t.name
    ]

unfoldable pub get_subcategory_name : ClassificationService → Text → Text → Text
unfolding get_category subcategory_in
get_subcategory_name s category_code sub_category_code =
    elim (of_category (get_category s category_code) (subcategory_in sub_category_code)) [
      | none ↦ []
      | some sub ↦ sub.name
    ]
