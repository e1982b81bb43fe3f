-- ===== src/Http/Asset/Handlers/Tests.antt =====
-- The query handler on one stored asset.
use kd_server.Common.{
  map, ◌≤◌, String, ◌≡◌, refl, true, false, none, some, List, [], ◌∷◌, length, all, All, Error,
}
use kd_server.Text.{codes, is_space, trim_space}
use kd_server.Asset.{Asset, AssetLink, AssetHistory, AssetIngestRecord, Register}
use kd_server.Asset.Store.{asset_matches, query_assets}
use kd_server.Mongo.Memory.{memory, memory-IsMongo}
use kd_server.Samples.{noon}
use kd_server.Asset.Samples.{chair}
use kd_server.Asset.Ingest.{new_asset, Clock, ingest_assets}
use kd_server.Format.{pos, atoi, digits_value}
use kd_server.Time.{before, is_digit, parse_date}
use kd_server.Http.{failed_with, done}
use kd_server.Http.Asset.{
  AssetRecordRequest, AssetIngestRequest, AssetListResponse, convert_asset_to_response, in_tenant,
}
use kd_server.Http.Asset.Handlers.{
  Query, query_limit, query_offset, query_filter, assets_query_handler, asset_ingest_handler,
}
use kd_server.Http.Asset.Handlers.Laws.{assets_query_handler-page}
use kd_server.Http.Asset.Handlers.Dates.{has_dates, asset_ingest_handler-dates}

code : Unit {0}
unfolding memory is_space trim_space in_tenant assets_query_handler query_filter query_limit
    query_offset parse_date query_assets asset_matches atoi digits_value is_digit before new_asset
code = tt

abbrev query : Query
query = record {
  office = codes "B15";
  category_no = [];
  type_number = [];
  status = codes "active";
  limit = codes "500";
  offset = codes "-1";
  acquisition_date_from = codes "2024-02-30";
  acquisition_date_to = [];
}

abbrev answered : AssetListResponse
answered = record {
  assets = convert_asset_to_response chair ∷ [];
  total = 1;
  limit = 20;
  offset = 0;
}

assets_query_handler-page_example :
    All (λ a. a.tenant_id ≡ codes "acme") answered.assets
    × (length answered.assets ≤ answered.limit)
    × (1 ≤ answered.limit)
    × (answered.limit ≤ 100)
    × (Path (List Asset) (chair ∷ []) (chair ∷ []))
unfolding code
assets_query_handler-page_example =
    assets_query_handler-page memory memory-IsMongo (codes "acme") query (chair ∷ []) (chair ∷ [])
      answered refl

abbrev row : String → AssetRecordRequest
row acquired = record {
  office = codes "B15";
  category_no = codes "02";
  sub_category_no = [];
  type_number = codes "073";
  description1 = codes "chair";
  description2 = [];
  use_of_asset = [];
  location = codes "room 1";
  quantity = pos 1;
  vendor = [];
  manufacturer = [];
  is_purchased_new = true;
  acquisition_date = codes acquired;
  use_commence_date = [];
  country_of_origin = [];
  type_brand = [];
  original_value = 4607182418800017408;
  currency = [];
  useful_life_years = pos 5;
  depreciation_method = [];
  residual_value = 0;
  business_area = [];
  cost_centre = [];
  creation_form_no = [];
  requested_by = none;
  authorized_by = none;
  sap_asset_master_id = [];
  attributes = [];
}

abbrev import : AssetIngestRequest
import = record { source_slug = codes "erp"; records = row "2024-05-06" ∷ row "2024-02-30" ∷ [] }

abbrev clock : Clock
clock = record {
  start = noon;
  checked = λ i. noon;
  made = λ i q. record {
    asset_now = noon;
    asset_id = codes "a";
    link_now = noon;
    link_id = codes "b";
    history_now = noon;
    history_id = codes "c";
  };
}

abbrev register : Register (List Asset) (List AssetLink) (List AssetHistory)
register = record { assets = chair ∷ []; links = []; history = [] }

asset_ingest_handler-dates_example :
    (all has_dates import.records ≡ true
      → (xs : List AssetIngestRecord) × (length xs ≡ length import.records)
        × (map (λ (x : AssetIngestRecord). some x.acquisition_date) xs
            ≡ map (λ (r : AssetRecordRequest). parse_date r.acquisition_date) import.records)
        × (asset_ingest_handler memory memory memory none clock
              (some (codes "acme"))
              (some import)
              register
            ≡ (
              (ingest_assets memory memory memory none
                  (codes "acme")
                  (codes "erp")
                  (codes "system")
                  clock
                  xs
                  register).0,
              done 200
                  (ingest_assets memory memory memory none
                    (codes "acme")
                    (codes "erp")
                    (codes "system")
                    clock
                    xs
                    register).1,
            )))
    × (all has_dates import.records ≡ false
        → (e : Error) × (asset_ingest_handler memory memory memory none clock
              (some (codes "acme"))
              (some import)
              register
            ≡ (register, failed_with 400 e)))
unfolding code
asset_ingest_handler-dates_example =
    asset_ingest_handler-dates memory memory memory none clock (codes "acme") import register refl
