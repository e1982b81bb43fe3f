-- ===== src/Asset.antt =====
-- The register of fixed assets: the documents of internal/store/asset_models.go and what the service of
-- internal/services/asset.go takes and returns. The operations are in the modules below: Asset/Store.antt
-- (internal/store/asset.go), Asset/Number.antt (asset numbers) and Asset/Service.antt
-- (internal/services/asset.go) with its ingest in Asset/Ingest.antt.
--
-- A `float64` is the natural number of its IEEE 754 bits, and a `map[string]any` a list of its members,
-- each with the JSON text of its value: no code here looks into such a value.
pub mod Store
pub mod Number
pub mod Service
pub mod Ingest
pub mod Samples
mod Tests
use kd_server.Common.{ℕ, Bool, Option, List, Result, Error, String}
use kd_server.Text.{Text}
use kd_server.Json.{Json}
use kd_server.Time.{Time}
use kd_server.Format.{ℤ}
use kd_server.Tenant.{ObjectId}

abbrev pub Float : Type 0
Float = ℕ

pub record AssetApproval : Type 0 where
  pub user_id : Text
  pub name : Text
  pub designation : Text
  pub date : Time

pub record Asset : Type 0 where
  pub id : ObjectId
  pub asset_no : Text
  pub tenant_id : Text
  pub office : Text
  pub year : ℕ
  pub category_no : Text
  pub category_name : Text
  pub sub_category_no : Text
  pub sub_category_name : Text
  pub type_number : Text
  pub type_name : Text
  pub serial_increment : Text
  pub description1 : Text
  pub description2 : Text
  pub use_of_asset : Text
  pub location : Text
  pub quantity : ℤ
  pub vendor : Text
  pub manufacturer : Text
  pub is_purchased_new : Bool
  pub acquisition_date : Time
  pub use_commence_date : Option Time
  pub country_of_origin : Text
  pub type_brand : Text
  pub original_value : Float
  pub currency : Text
  pub useful_life_years : ℤ
  pub depreciation_method : Text
  pub residual_value : Float
  pub business_area : Text
  pub cost_centre : Text
  pub creation_form_no : Text
  pub requested_by : Option AssetApproval
  pub authorized_by : Option AssetApproval
  pub sap_asset_master_id : Text
  pub status : Text
  pub barcode_id : Text
  pub attributes : Json
  pub created_at : Time
  pub updated_at : Time
  pub created_by : Text

pub record AssetLink : Type 0 where
  pub id : ObjectId
  pub asset_no : Text
  pub tenant_id : Text
  pub source : Text
  pub external_id : Text
  pub payload : Json
  pub created_at : Time
  pub updated_at : Time

pub record AssetHistory : Type 0 where
  pub id : ObjectId
  pub asset_no : Text
  pub tenant_id : Text
  pub event_type : Text
  pub from_location : Text
  pub to_location : Text
  pub performed_by : Text
  pub notes : Text
  pub timestamp : Time

pub record AssetQueryFilter : Type 0 where
  pub tenant_id : Text
  pub office : Text
  pub category_no : Text
  pub type_number : Text
  pub status : Text
  pub acquisition_date_from : Option Time
  pub acquisition_date_to : Option Time
  pub limit : ℕ
  pub offset : ℕ

pub record AssetIngestRecord : Type 0 where
  pub office : Text
  pub category_no : Text
  pub sub_category_no : Text
  pub type_number : Text
  pub description1 : Text
  pub description2 : Text
  pub use_of_asset : Text
  pub location : Text
  pub quantity : ℤ
  pub vendor : Text
  pub manufacturer : Text
  pub is_purchased_new : Bool
  pub acquisition_date : Time
  pub use_commence_date : Option Time
  pub country_of_origin : Text
  pub type_brand : Text
  pub original_value : Float
  pub currency : Text
  pub useful_life_years : ℤ
  pub depreciation_method : Text
  pub residual_value : Float
  pub business_area : Text
  pub cost_centre : Text
  pub creation_form_no : Text
  pub requested_by : Option AssetApproval
  pub authorized_by : Option AssetApproval
  pub sap_asset_master_id : Text
  pub attributes : Json

pub record AssetIngestError : Type 0 where
  pub record_index : ℕ
  pub field : String
  pub message : Error

pub record AssetIngestResult : Type 0 where
  pub created : ℕ
  pub asset_numbers : List Text
  pub errors : List AssetIngestError

-- The three collections of the register.
pub record Register (A L H : Type 0) : Type 0 where
  pub assets : A
  pub links : L
  pub history : H
