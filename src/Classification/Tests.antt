-- ===== src/Classification/Tests.antt =====
-- A hierarchy with two categories of one code.
use kd_server.Common.{String, ◌≡◌, refl, none, some, [], ◌∷◌, ok}
use kd_server.Text.{codes}
use kd_server.Classification.{
  AssetCategory, ClassificationService, put, lookup, fill, new_classification_service, get_category,
}
use kd_server.Classification.Laws.{last_with, get_category-new}

code : Unit {0}
unfolding new_classification_service fill put lookup get_category
code = tt

abbrev category : String → AssetCategory
category name = record {
  code = codes "02";
  name = codes name;
  description = [];
  subcategories = [];
}

abbrev service : ClassificationService
service = record {
  data_categories = some (category "desks" ∷ category "chairs" ∷ []);
  cache = (codes "02", category "chairs") ∷ [];
}

get_category-new_example :
    get_category service (codes "02")
    ≡ last_with (codes "02") (category "desks" ∷ category "chairs" ∷ []) none
unfolding code
get_category-new_example =
    get_category-new (ok []) (λ t. ok (category "desks" ∷ category "chairs" ∷ []))
      (category "desks" ∷ category "chairs" ∷ []) service refl refl (codes "02")
