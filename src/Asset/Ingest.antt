-- ===== src/Asset/Ingest.antt =====
-- `IngestAssets` and `validateAssetRecord` of internal/services/asset.go. What `time.Now()` and
-- `primitive.NewObjectID()` return is the argument `Clock`, by the record's index and the unit's.
pub mod Laws
pub mod Stored
use kd_server.Common.{
  ℕ, zero, suc, ◌+◌, ◌-◌, ◌*◌, ◌/◌, ◌%◌, ◌^◌, ◌≤◌, ◌<◌, String, ◌≡◌, refl, sym, ap, ◌∙◌, ◌≢◌, ◌↔◌,
  ◌⊎◌, inl, inr, Bool, true, false, not, ◌&&◌, ◌||◌, Option, none, some, List, [], ◌∷◌, ◌++◌, map,
  Memᴰ, arith, ltb, leb, ◌==◌, ==_iff, within, if◌then◌else◌, Bool-cases, Option-cases,
  Result-cases, length, take, drop, any, all, keep, length-append, All, All-append, All-map,
  All-mem, Result, ok, err, Error, message, about, wrap, fault, no_documents, duplicate_key,
  is_no_documents,
}
use kd_server.Text.{
  Text, codes, same, is_empty, is_blank, is_space, trim_space, Casing, to_lower, to_upper,
  has_prefix, trim_prefix, cut, same_iff, same_refl,
}
use kd_server.Mongo.{
  Action, after, ◌>>=◌, ◌>>◌, pure, raise, require, on_error, reading, writing, Query, page,
  Collection,
}
use kd_server.Mongo.Laws.{
  IsMongo, Updated, missed, hit, Unique, Unique-eq, after-eq-ok, require-eq-ok, on_error-eq-ok,
  IsOrder,
}
use kd_server.Asset.{
  Float, AssetApproval, Asset, AssetLink, AssetHistory, AssetQueryFilter, AssetIngestRecord,
  AssetIngestError, AssetIngestResult, Register,
}
use kd_server.Asset.Store.{
  nil_store, nil_object_id, or_new_id, or_now, or_kept, set_asset, has_number, optional, given,
  since, until, asset_matches, create_asset, update_asset, get_asset_by_number, query_assets,
  create_asset_link, get_asset_links, create_asset_history, get_asset_history,
}
use kd_server.Format.{ℤ, pos, negsuc, atoi, pad4, digit, format_04d, next_int, decimal}
use kd_server.Tenant.{ObjectId}
use kd_server.Time.{Time, is_zero, zero_time, before, later_than}
use kd_server.Asset.Number.{matches_asset_no, generate_asset_number}
use kd_server.Asset.Service.{event, is_positive, not_positive}
use kd_server.Classification.{
  ClassificationService, AssetCategory, get_category, get_type_name, get_subcategory_name,
}

-- The time and the id of each of the three insertions for a unit.
pub record Stamps : Type 0 where
  pub asset_now : Time
  pub asset_id : ObjectId
  pub link_now : Time
  pub link_id : ObjectId
  pub history_now : Time
  pub history_id : ObjectId

pub record Clock : Type 0 where
  pub start : Time
  pub checked : ℕ → Time
  pub made : ℕ → ℕ → Stamps

abbrev pub problem : Bool → ℕ → String → String → List AssetIngestError
problem true index field text =
    record { record_index = index; field = field; message = message text } ∷ []
problem false index field text = []

-- `validCategories`
unfoldable pub valid_category : Text → Bool
valid_category c = any (same c) (
    codes "01"
    ∷ codes "02"
    ∷ codes "03"
    ∷ codes "04"
    ∷ codes "05"
    ∷ codes "06"
    ∷ codes "07"
    ∷ codes "08"
    ∷ codes "09"
    ∷ codes "290"
    ∷ [])

-- The errors that `validateAssetRecord` appends; it fails if there is one.
unfoldable pub validate_asset_record : (now : Time) → ℕ → AssetIngestRecord → List AssetIngestError
unfolding valid_category
validate_asset_record now index r =
    problem (is_empty r.office) index "office" "office code is required"
    ++ problem (is_empty r.category_no) index "categoryNo" "category number is required"
    ++ problem (not (is_empty r.category_no) && not (valid_category r.category_no)) index
        "categoryNo" "invalid category number (must be 01-09 or 290)"
    ++ problem (is_empty r.type_number) index "typeNumber" "type number is required"
    ++ problem (is_empty r.description1) index "description1" "description is required"
    ++ problem (is_empty r.location) index "location" "location is required"
    ++ problem (not_positive r.original_value) index "originalValue"
        "original value must be greater than zero"
    ++ problem (is_zero r.acquisition_date) index "acquisitionDate" "acquisition date is required"
    ++ problem (not (is_zero r.acquisition_date) && later_than r.acquisition_date now) index
        "acquisitionDate" "acquisition date cannot be in the future"

-- The defaults that `validateAssetRecord` sets.
unfoldable pub with_defaults : AssetIngestRecord → AssetIngestRecord
with_defaults r = record r {
  currency = or_kept r.currency (codes "MVR");
  depreciation_method = or_kept r.depreciation_method (codes "straight-line");
}

-- The year of the asset's number.
abbrev pub year_of : ℕ → AssetIngestRecord → ℕ
year_of current r =
    if r.acquisition_date.year == 1 || r.acquisition_date.year == 0
    then current
    else r.acquisition_date.year

-- `quantity`, at least 1.
abbrev pub units : AssetIngestRecord → ℕ
units r = elim r.quantity [ pos (suc n) ↦ suc n | _ ↦ 1 ]

-- `assetNo[len(assetNo)-4:]`; a generated number ends with at least four digits.
abbrev pub last_four : Text → Text
last_four s = drop (length s - 4) s

abbrev category_name_of : Option ClassificationService → AssetIngestRecord → Text
category_name_of none r = []
category_name_of (some cs) r = elim (get_category cs r.category_no) [
  | none ↦ []
  | some cat ↦ cat.name
]

abbrev sub_category_name_of : Option ClassificationService → AssetIngestRecord → Text
sub_category_name_of none r = []
sub_category_name_of (some cs) r =
    if is_empty r.sub_category_no
    then []
    else get_subcategory_name cs r.category_no r.sub_category_no

abbrev type_name_of : Option ClassificationService → AssetIngestRecord → Text
type_name_of none r = []
type_name_of (some cs) r = get_type_name cs r.category_no r.type_number

unfoldable pub new_asset :
    Option ClassificationService → (tenant created_by : Text) → ℕ → AssetIngestRecord → Text → Asset
new_asset cs tenant created_by year r asset_no = record {
  id = nil_object_id;
  asset_no = asset_no;
  tenant_id = tenant;
  office = r.office;
  year = year;
  category_no = r.category_no;
  category_name = category_name_of cs r;
  sub_category_no = r.sub_category_no;
  sub_category_name = sub_category_name_of cs r;
  type_number = r.type_number;
  type_name = type_name_of cs r;
  serial_increment = last_four asset_no;
  description1 = r.description1;
  description2 = r.description2;
  use_of_asset = r.use_of_asset;
  location = r.location;
  quantity = pos 1;
  vendor = r.vendor;
  manufacturer = r.manufacturer;
  is_purchased_new = r.is_purchased_new;
  acquisition_date = r.acquisition_date;
  use_commence_date = r.use_commence_date;
  country_of_origin = r.country_of_origin;
  type_brand = r.type_brand;
  original_value = r.original_value;
  currency = r.currency;
  useful_life_years = r.useful_life_years;
  depreciation_method = r.depreciation_method;
  residual_value = r.residual_value;
  business_area = r.business_area;
  cost_centre = r.cost_centre;
  creation_form_no = r.creation_form_no;
  requested_by = r.requested_by;
  authorized_by = r.authorized_by;
  sap_asset_master_id = r.sap_asset_master_id;
  status = codes "active";
  barcode_id = codes "BC-" ++ asset_no;
  attributes = r.attributes;
  created_at = zero_time;
  updated_at = zero_time;
  created_by = created_by;
}

abbrev pub add_error : ℕ → String → Error → AssetIngestResult → AssetIngestResult
add_error index field e acc = record acc {
  errors = acc.errors ++ record { record_index = index; field = field; message = e } ∷ [];
}

abbrev pub add_number : Text → AssetIngestResult → AssetIngestResult
add_number asset_no acc = record acc {
  created = suc acc.created;
  asset_numbers = acc.asset_numbers ++ asset_no ∷ [];
}

module _ {A L H : Type 0} (assets : Collection A Asset) (links : Collection L AssetLink)
    (history : Collection H AssetHistory) (cs : Option ClassificationService)
    (tenant source created_by : Text) (clock : Clock) where
  -- The link and the event of a new asset; their errors are dropped.
  unfoldable pub record_creation : ℕ → ℕ → Text → Text → Register A L H → Register A L H
  record_creation i q office asset_no s =
      let t = clock.made i q in
      let link : AssetLink = record {
        id = nil_object_id;
        asset_no = asset_no;
        tenant_id = tenant;
        source = source;
        external_id = office ++ b'-' ∷ decimal i;
        payload = [];
        created_at = zero_time;
        updated_at = zero_time;
      } in
      let created : AssetHistory =
        event asset_no tenant (codes "created") [] [] created_by
          (codes "Asset created from " ++ source ++ codes " import") in
      record {
        assets = s.assets;
        links = (create_asset_link links link t.link_now t.link_id s.links).0;
        history = (create_asset_history history created t.history_now t.history_id s.history).0;
      }

  abbrev pub after_create :
      ℕ
      → ℕ
      → Text
      → Text
      → Register A L H
      → A × Result (Unit {0})
      → AssetIngestResult
      → Register A L H × AssetIngestResult
  after_create i q office asset_no s (a, ok _) acc =
      (record_creation i q office asset_no (record s { assets = a }), add_number asset_no acc)
  after_create i q office asset_no s (a, err e) acc =
      (record s { assets = a }, add_error i "asset" (wrap "failed to create asset" e) acc)

  abbrev pub after_number :
      ℕ
      → ℕ
      → ℕ
      → AssetIngestRecord
      → Register A L H
      → A × Result Text
      → AssetIngestResult
      → Register A L H × AssetIngestResult
  after_number i q year r s (a, ok asset_no) acc =
      let t = clock.made i q in
      after_create i q r.office asset_no s
        (create_asset assets (new_asset cs tenant created_by year r asset_no) t.asset_now t.asset_id
          a)
        acc
  after_number i q year r s (a, err e) acc = (
    record s { assets = a },
    add_error i "assetNo" (wrap "failed to generate asset number" e) acc,
  )

  -- One asset of the record, `q` of its quantity.
  unfoldable pub ingest_unit :
      ℕ
      → AssetIngestRecord
      → ℕ
      → ℕ
      → Register A L H
      → AssetIngestResult
      → Register A L H × AssetIngestResult
  ingest_unit i r year q s acc =
      after_number i q year r s
        (generate_asset_number assets tenant r.office r.category_no r.type_number year s.assets) acc

  unfoldable pub ingest_units :
      ℕ
      → AssetIngestRecord
      → ℕ
      → (left q : ℕ) → Register A L H
      → AssetIngestResult
      → Register A L H × AssetIngestResult
  unfolding ingest_unit
  ingest_units i r year zero q s acc = (s, acc)
  ingest_units i r year (suc left) q s acc =
      let (s', acc') = ingest_unit i r year q s acc in ingest_units i r year left (suc q) s' acc'

  unfoldable pub ingest_record :
      ℕ
      → AssetIngestRecord
      → List AssetIngestError
      → Register A L H
      → AssetIngestResult
      → Register A L H × AssetIngestResult
  unfolding ingest_units with_defaults
  ingest_record i r [] s acc =
      ingest_units i (with_defaults r) (year_of clock.start.year r) (units r) 0 s acc
  ingest_record i r (e ∷ es) s acc = (s, record acc { errors = acc.errors ++ e ∷ es })

  unfoldable pub ingest_records :
      ℕ
      → List AssetIngestRecord
      → Register A L H
      → AssetIngestResult
      → Register A L H × AssetIngestResult
  unfolding ingest_record
  ingest_records i [] s acc = (s, acc)
  ingest_records i (r ∷ rs) s acc =
      let (s', acc') = ingest_record i r (validate_asset_record (clock.checked i) i r) s acc in
      ingest_records (suc i) rs s' acc'

  -- `IngestAssets` returns no error.
  unfoldable pub ingest_assets :
      List AssetIngestRecord → Register A L H → Register A L H × AssetIngestResult
  unfolding ingest_records
  ingest_assets records s =
      ingest_records 0 records s (record { created = 0; asset_numbers = []; errors = [] })
