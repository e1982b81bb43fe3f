-- ===== src/Http/Asset.antt =====
-- The payloads of internal/http/asset.go, and how they are made from and into the assets of the service.
-- The JSON text is read and written by the library: a body is what `Decode` returned.
pub mod Handlers
use kd_server.Common.{
  ℕ, zero, suc, ◌+◌, ◌-◌, ◌*◌, ◌/◌, ◌%◌, ◌^◌, ◌≤◌, ◌<◌, String, ◌≡◌, refl, sym, ap, ◌∙◌, ◌≢◌, ◌↔◌,
  ◌⊎◌, inl, inr, Bool, true, false, not, ◌&&◌, ◌||◌, Option, none, some, List, [], ◌∷◌, ◌++◌, map,
  Memᴰ, arith, ltb, leb, ◌==◌, ==_iff, within, if◌then◌else◌, Bool-cases, Option-cases,
  Result-cases, length, take, drop, any, all, keep, length-append, All, All-append, All-map,
  All-mem, Result, ok, err, Error, message, about, wrap, fault, no_documents, duplicate_key,
  is_no_documents, ◌>>=◌,
}
use kd_server.Text.{
  Text, codes, same, is_empty, is_blank, is_space, trim_space, Casing, to_lower, to_upper,
  has_prefix, trim_prefix, cut, same_iff, same_refl,
}
use kd_server.Asset.{
  Float, AssetApproval, Asset, AssetLink, AssetHistory, AssetQueryFilter, AssetIngestRecord,
  AssetIngestError, AssetIngestResult, Register,
}
use kd_server.Format.{ℤ, pos, negsuc, atoi}
use kd_server.Json.{Json}
use kd_server.Time.{Time, zero_time, parse_date, format_date, format_rfc3339}
use kd_server.Http.{Reply, failed, failed_with, done, Handler}

-- `assetApprovalRequest` and `assetApprovalResponse`
pub record ApprovalText : Type 0 where
  pub user_id : Text
  pub name : Text
  pub designation : Text
  pub date : Text

pub record AssetRecordRequest : Type 0 where
  pub office : Text
  pub category_no : Text
  pub sub_category_no : Text
  pub type_number : Text
  pub description1 : Text
  pub description2 : Text
  pub use_of_asset : Text
  pub location : Text
  pub quantity : ℤ
  pub vendor : Text
  pub manufacturer : Text
  pub is_purchased_new : Bool
  pub acquisition_date : Text
  pub use_commence_date : Text
  pub country_of_origin : Text
  pub type_brand : Text
  pub original_value : Float
  pub currency : Text
  pub useful_life_years : ℤ
  pub depreciation_method : Text
  pub residual_value : Float
  pub business_area : Text
  pub cost_centre : Text
  pub creation_form_no : Text
  pub requested_by : Option ApprovalText
  pub authorized_by : Option ApprovalText
  pub sap_asset_master_id : Text
  pub attributes : Json

pub record AssetIngestRequest : Type 0 where
  pub source_slug : Text
  pub records : List AssetRecordRequest

pub record AssetResponse : Type 0 where
  pub asset_no : Text
  pub tenant_id : Text
  pub office : Text
  pub year : ℕ
  pub category_no : Text
  pub category_name : Text
  pub sub_category_no : Text
  pub sub_category_name : Text
  pub type_number : Text
  pub type_name : Text
  pub serial_increment : Text
  pub description1 : Text
  pub description2 : Text
  pub use_of_asset : Text
  pub location : Text
  pub quantity : ℤ
  pub vendor : Text
  pub manufacturer : Text
  pub is_purchased_new : Bool
  pub acquisition_date : Text
  pub use_commence_date : Text
  pub country_of_origin : Text
  pub type_brand : Text
  pub original_value : Float
  pub currency : Text
  pub useful_life_years : ℤ
  pub depreciation_method : Text
  pub residual_value : Float
  pub business_area : Text
  pub cost_centre : Text
  pub creation_form_no : Text
  pub requested_by : Option ApprovalText
  pub authorized_by : Option ApprovalText
  pub sap_asset_master_id : Text
  pub status : Text
  pub barcode_id : Text
  pub attributes : Json
  pub created_at : Text
  pub updated_at : Text
  pub created_by : Text

pub record AssetLinkResponse : Type 0 where
  pub source : Text
  pub external_id : Text
  pub payload : Json
  pub created_at : Text
  pub updated_at : Text

pub record AssetViewResponse : Type 0 where
  pub asset : AssetResponse
  pub links : List AssetLinkResponse

pub record AssetListResponse : Type 0 where
  pub assets : List AssetResponse
  pub total : ℕ
  pub limit : ℕ
  pub offset : ℕ

abbrev date_text : Option Time → Text
date_text none = []
date_text (some t) = format_date t

abbrev approval_text : Option AssetApproval → Option ApprovalText
approval_text none = none
approval_text (some p) = some (record {
  user_id = p.user_id;
  name = p.name;
  designation = p.designation;
  date = format_date p.date;
})

unfoldable pub convert_asset_to_response : Asset → AssetResponse
convert_asset_to_response a = record {
  asset_no = a.asset_no;
  tenant_id = a.tenant_id;
  office = a.office;
  year = a.year;
  category_no = a.category_no;
  category_name = a.category_name;
  sub_category_no = a.sub_category_no;
  sub_category_name = a.sub_category_name;
  type_number = a.type_number;
  type_name = a.type_name;
  serial_increment = a.serial_increment;
  description1 = a.description1;
  description2 = a.description2;
  use_of_asset = a.use_of_asset;
  location = a.location;
  quantity = a.quantity;
  vendor = a.vendor;
  manufacturer = a.manufacturer;
  is_purchased_new = a.is_purchased_new;
  acquisition_date = format_date a.acquisition_date;
  use_commence_date = date_text a.use_commence_date;
  country_of_origin = a.country_of_origin;
  type_brand = a.type_brand;
  original_value = a.original_value;
  currency = a.currency;
  useful_life_years = a.useful_life_years;
  depreciation_method = a.depreciation_method;
  residual_value = a.residual_value;
  business_area = a.business_area;
  cost_centre = a.cost_centre;
  creation_form_no = a.creation_form_no;
  requested_by = approval_text a.requested_by;
  authorized_by = approval_text a.authorized_by;
  sap_asset_master_id = a.sap_asset_master_id;
  status = a.status;
  barcode_id = a.barcode_id;
  attributes = a.attributes;
  created_at = format_rfc3339 a.created_at;
  updated_at = format_rfc3339 a.updated_at;
  created_by = a.created_by;
}

abbrev pub link_response : AssetLink → AssetLinkResponse
link_response l = record {
  source = l.source;
  external_id = l.external_id;
  payload = l.payload;
  created_at = format_rfc3339 l.created_at;
  updated_at = format_rfc3339 l.updated_at;
}

-- `date, _ := parseDate(…)`: the zero time where the text is no date.
abbrev date_or_zero : Option Time → Time
date_or_zero none = zero_time
date_or_zero (some t) = t

abbrev approval_of : Option ApprovalText → Option AssetApproval
approval_of none = none
approval_of (some p) = some (record {
  user_id = p.user_id;
  name = p.name;
  designation = p.designation;
  date = date_or_zero (parse_date p.date);
})

abbrev acquisition_date_of : Option Time → Result Time
acquisition_date_of none = err (message "invalid acquisitionDate format, use ISO 8601 (YYYY-MM-DD)")
acquisition_date_of (some t) = ok t

abbrev parsed_commence_date : Option Time → Result (Option Time)
parsed_commence_date none =
    err (message "invalid useCommenceDate format, use ISO 8601 (YYYY-MM-DD)")
parsed_commence_date (some t) = ok (some t)

abbrev pub use_commence_date_of : Text → Result (Option Time)
use_commence_date_of [] = ok none
use_commence_date_of (c ∷ s) = parsed_commence_date (parse_date (c ∷ s))

-- The service's record, or the error of a date.
unfoldable pub service_record : AssetRecordRequest → Result AssetIngestRecord
service_record r = do
  acquired ← acquisition_date_of (parse_date r.acquisition_date)
  commenced ← use_commence_date_of r.use_commence_date
  ok (record {
    office = r.office;
    category_no = r.category_no;
    sub_category_no = r.sub_category_no;
    type_number = r.type_number;
    description1 = r.description1;
    description2 = r.description2;
    use_of_asset = r.use_of_asset;
    location = r.location;
    quantity = r.quantity;
    vendor = r.vendor;
    manufacturer = r.manufacturer;
    is_purchased_new = r.is_purchased_new;
    acquisition_date = acquired;
    use_commence_date = commenced;
    country_of_origin = r.country_of_origin;
    type_brand = r.type_brand;
    original_value = r.original_value;
    currency = r.currency;
    useful_life_years = r.useful_life_years;
    depreciation_method = r.depreciation_method;
    residual_value = r.residual_value;
    business_area = r.business_area;
    cost_centre = r.cost_centre;
    creation_form_no = r.creation_form_no;
    requested_by = approval_of r.requested_by;
    authorized_by = approval_of r.authorized_by;
    sap_asset_master_id = r.sap_asset_master_id;
    attributes = r.attributes;
  })

-- All records, or the first error.
unfoldable pub service_records : List AssetRecordRequest → Result (List AssetIngestRecord)
unfolding service_record
service_records [] = ok []
service_records (r ∷ rs) =
    service_record r >>= λ x. let rest = service_records rs in rest >>= λ xs. ok (x ∷ xs)

-- The tenant that the middleware put into the context.
unfoldable pub in_tenant : {S B : Type 0} → Option Text → (Text → Handler S B) → Handler S B
in_tenant none h s = (s, failed 500 "tenant context missing")
in_tenant (some tenant) h s =
    if is_blank tenant then (s, failed 500 "tenant context missing") else h tenant s

-- `strings.TrimSuffix`
unfoldable pub trim_suffix : Text → Text → Text
trim_suffix end s =
    let n = length s - length end in
    if leb (length end) (length s) && same (drop n s) end then take n s else s
