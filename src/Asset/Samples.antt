-- ===== src/Asset/Samples.antt =====
-- An asset, for the tests.
use kd_server.Common.{true, none, []}
use kd_server.Text.{codes}
use kd_server.Asset.{Asset, AssetIngestRecord}
use kd_server.Format.{pos}
use kd_server.Asset.Ingest.{new_asset}

abbrev pub chair_record : AssetIngestRecord
chair_record = record {
  office = codes "B15";
  category_no = codes "02";
  sub_category_no = [];
  type_number = codes "073";
  description1 = codes "chair";
  description2 = [];
  use_of_asset = [];
  location = codes "room 1";
  quantity = pos 2;
  vendor = [];
  manufacturer = [];
  is_purchased_new = true;
  acquisition_date = record { year = 2024; month = 5; day = 6; nanos = 0 };
  use_commence_date = none;
  country_of_origin = [];
  type_brand = [];
  original_value = 4607182418800017408;
  currency = [];
  useful_life_years = pos 5;
  depreciation_method = [];
  residual_value = 0;
  business_area = [];
  cost_centre = [];
  creation_form_no = [];
  requested_by = none;
  authorized_by = none;
  sap_asset_master_id = [];
  attributes = [];
}

abbrev pub chair : Asset
chair = new_asset none (codes "acme") (codes "eve") 2024 chair_record (codes "B15-2024-02-073-0007")
