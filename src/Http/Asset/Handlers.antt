-- ===== src/Http/Asset/Handlers.antt =====
-- The handlers of internal/http/asset.go. A request's path is its text, a query parameter is what
-- `query.Get` returns, and a body what `Decode` returned, `none` for an error.
pub mod Laws
pub mod Dates
mod Tests
use kd_server.Common.{
  ℕ, zero, suc, ◌+◌, ◌-◌, ◌*◌, ◌/◌, ◌%◌, ◌^◌, ◌≤◌, ◌<◌, String, ◌≡◌, refl, sym, ap, ◌∙◌, ◌≢◌, ◌↔◌,
  ◌⊎◌, inl, inr, Bool, true, false, not, ◌&&◌, ◌||◌, Option, none, some, List, [], ◌∷◌, ◌++◌, map,
  Memᴰ, arith, ltb, leb, ◌==◌, ==_iff, within, if◌then◌else◌, Bool-cases, Option-cases,
  Result-cases, length, take, drop, any, all, keep, length-append, All, All-append, All-map,
  All-mem, Result, ok, err, Error, message, about, wrap, fault, no_documents, duplicate_key,
  is_no_documents, ◌>>=◌,
}
use kd_server.Text.{
  Text, codes, same, is_empty, is_blank, is_space, trim_space, Casing, to_lower, to_upper,
  has_prefix, trim_prefix, cut, same_iff, same_refl,
}
use kd_server.Asset.{
  Float, AssetApproval, Asset, AssetLink, AssetHistory, AssetQueryFilter, AssetIngestRecord,
  AssetIngestError, AssetIngestResult, Register,
}
use kd_server.Asset.Store.{
  nil_store, nil_object_id, or_new_id, or_now, or_kept, set_asset, has_number, optional, given,
  since, until, asset_matches, create_asset, update_asset, get_asset_by_number, query_assets,
  create_asset_link, get_asset_links, create_asset_history, get_asset_history,
}
use kd_server.Format.{ℤ, pos, negsuc, atoi}
use kd_server.Time.{Time, zero_time, parse_date, format_date, format_rfc3339}
use kd_server.Http.{Reply, failed, failed_with, done, Handler}
use kd_server.Http.Asset.{
  AssetIngestRequest, AssetRecordRequest, AssetResponse, AssetLinkResponse, AssetViewResponse,
  AssetListResponse, convert_asset_to_response, link_response, service_record, service_records,
  in_tenant, trim_suffix,
}
use kd_server.Asset.Service.{get_asset, transfer_asset, dispose_asset, FloatFormat}
use kd_server.Asset.Ingest.{Clock, ingest_assets}
use kd_server.Classification.{
  ClassificationService, AssetCategory, get_category, get_all_categories,
}
use kd_server.Mongo.{Collection, Action}
use kd_server.Mongo.Laws.{IsMongo, IsOrder}
use kd_server.Tenant.{ObjectId}

pub record Query : Type 0 where
  pub office : Text
  pub category_no : Text
  pub type_number : Text
  pub status : Text
  pub limit : Text
  pub offset : Text
  pub acquisition_date_from : Text
  pub acquisition_date_to : Text

pub record AssetTransferRequest : Type 0 where
  pub to_location : Text
  pub performed_by : Text
  pub notes : Text

pub record AssetDisposeRequest : Type 0 where
  pub reason : Text
  pub performed_by : Text
  pub sale_value : Float
  pub notes : Text

pub record AssetChanged : Type 0 where
  pub asset_no : Text
  pub status : Text
  pub detail : Text

-- `limit > 0 && limit <= 100` of what `strconv.Atoi` returned, and else 20.
abbrev pub limit_or_default : Option ℤ → ℕ
limit_or_default none = 20
limit_or_default (some (pos n)) = if within 1 100 n then n else 20
limit_or_default (some (negsuc _)) = 20

abbrev offset_or_default : Option ℤ → ℕ
offset_or_default none = 0
offset_or_default (some (pos n)) = n
offset_or_default (some (negsuc _)) = 0

unfoldable pub query_limit : Text → ℕ
query_limit s = limit_or_default (atoi s)

unfoldable pub query_offset : Text → ℕ
query_offset s = offset_or_default (atoi s)

-- The filter of `assetsQueryHandler`; a date that is no date is dropped. No number and no date is empty.
unfoldable pub query_filter : Text → Query → AssetQueryFilter
unfolding query_limit query_offset
query_filter tenant q = record {
  tenant_id = tenant;
  office = q.office;
  category_no = q.category_no;
  type_number = q.type_number;
  status = q.status;
  acquisition_date_from = parse_date q.acquisition_date_from;
  acquisition_date_to = parse_date q.acquisition_date_to;
  limit = query_limit q.limit;
  offset = query_offset q.offset;
}

abbrev pub list_response : AssetQueryFilter → List Asset × ℕ → AssetListResponse
list_response filter (found, total) = record {
  assets = map convert_asset_to_response found;
  total = total;
  limit = filter.limit;
  offset = filter.offset;
}

-- `err.Error() == "asset not found"`
abbrev pub is_asset_not_found : Error → Bool
is_asset_not_found (message m) = same (codes m) (codes "asset not found")
is_asset_not_found _ = false

abbrev pub change_error : {B : Type 0} → Error → Reply B
change_error e = if is_asset_not_found e then failed_with 404 e else failed_with 500 e

-- The number in the path, between a prefix and a suffix.
unfoldable pub asset_no_of : Text → Text → Text → Text
unfolding trim_suffix
asset_no_of prefix suffix path = trim_space (trim_suffix suffix (trim_prefix prefix path))

-- What a handler answers when a call has returned.
abbrev pub answer {ℓ} :
    {S : Type 0} {A : Type ℓ} {B : Type 0}
    → (A → Reply B)
    → (Error → Reply B)
    → S × Result A
    → S × Reply B
answer good bad (s, ok a) = (s, good a)
answer good bad (s, err e) = (s, bad e)

abbrev pub view_reply : Option (Asset × List AssetLink) → Reply AssetViewResponse
view_reply none = failed 404 "asset not found"
view_reply (some (a, links)) =
    done 200 (record { asset = convert_asset_to_response a; links = map link_response links })

module _ {A L H : Type 0} (assets : Collection A Asset) (links : Collection L AssetLink)
    (history : Collection H AssetHistory) where
  -- `assetIngestHandler`; the records are converted before the first of them is ingested.
  abbrev pub ingest_converted :
      Option ClassificationService
      → Clock
      → Text
      → Text
      → Result (List AssetIngestRecord)
      → Handler (Register A L H) AssetIngestResult
  ingest_converted cs clock tenant source (err e) s = (s, failed_with 400 e)
  ingest_converted cs clock tenant source (ok records) s =
      let (s', result) =
        ingest_assets assets links history cs tenant source (codes "system") clock records s in
      (s', done 200 result)

  abbrev pub ingest_body :
      Option ClassificationService
      → Clock
      → Option AssetIngestRequest
      → Text
      → Handler (Register A L H) AssetIngestResult
  ingest_body cs clock none tenant s = (s, failed 400 "invalid payload")
  ingest_body cs clock (some r) tenant s =
      ingest_converted cs clock tenant r.source_slug (service_records r.records) s

  unfoldable pub asset_ingest_handler :
      Option ClassificationService
      → Clock
      → Option Text
      → Option AssetIngestRequest
      → Handler (Register A L H) AssetIngestResult
  unfolding in_tenant
  asset_ingest_handler cs clock context body = in_tenant context (ingest_body cs clock body)

module _ {A L H : Type 0} (assets : Collection A Asset) (links : Collection L AssetLink) where
  unfoldable pub asset_lookup_handler :
      Option Text → Text → Handler (Register A L H) AssetViewResponse
  unfolding in_tenant
  asset_lookup_handler context path = in_tenant context (λ tenant s.
      let asset_no = trim_space (trim_prefix (codes "/v1/lookup/asset/") path) in
      if is_empty asset_no
      then (s, failed 400 "asset number required")
      else answer view_reply (failed_with 500) (get_asset {H = H} assets links tenant asset_no s))

module _ {A : Type 0} (assets : Collection A Asset) where
  unfoldable pub assets_query_handler : Option Text → Query → Handler A AssetListResponse
  unfolding in_tenant query_filter
  assets_query_handler context q = in_tenant context (λ tenant s.
      let filter = query_filter tenant q in
      answer (λ r. done 200 (list_response filter r)) (failed_with 500)
        (query_assets assets filter s))

module _ {H : Type 0} (history : Collection H AssetHistory) where
  unfoldable pub asset_history_handler : Option Text → Text → Handler H (Text × List AssetHistory)
  unfolding in_tenant asset_no_of
  asset_history_handler context path = in_tenant context (λ tenant s.
      let asset_no = asset_no_of (codes "/v1/assets/") (codes "/history") path in
      if is_empty asset_no
      then (s, failed 400 "asset number required")
      else answer (λ events. done 200 (asset_no, events)) (failed_with 500)
          (get_asset_history history tenant asset_no s))

module _ {A L H : Type 0} (assets : Collection A Asset) (history : Collection H AssetHistory) where
  abbrev pub transfer_body :
      Text
      → Text
      → (now : Time) → ObjectId
      → Option AssetTransferRequest
      → Handler (Register A L H) AssetChanged
  transfer_body tenant asset_no now id none s = (s, failed 400 "invalid payload")
  transfer_body tenant asset_no now id (some r) s =
      if is_empty r.to_location
      then (s, failed 400 "toLocation is required")
      else if is_empty r.performed_by
      then (s, failed 400 "performedBy is required")
      else answer
          (λ _.
            done 200 (record {
              asset_no = asset_no;
              status = codes "transferred";
              detail = r.to_location;
            }))
          change_error
          (transfer_asset assets history tenant asset_no r.to_location r.performed_by r.notes now id
            s)

  unfoldable pub asset_transfer_handler :
      Option Text
      → Text
      → (now : Time) → ObjectId
      → Option AssetTransferRequest
      → Handler (Register A L H) AssetChanged
  unfolding in_tenant asset_no_of
  asset_transfer_handler context path now id body = in_tenant context (λ tenant s.
      let asset_no = asset_no_of (codes "/v1/assets/") (codes "/transfer") path in
      if is_empty asset_no
      then (s, failed 400 "asset number required")
      else transfer_body tenant asset_no now id body s)

  module _ ⦃f : FloatFormat⦄ where
    abbrev pub dispose_body :
        Text
        → Text
        → (now : Time) → ObjectId
        → Option AssetDisposeRequest
        → Handler (Register A L H) AssetChanged
    dispose_body tenant asset_no now id none s = (s, failed 400 "invalid payload")
    dispose_body tenant asset_no now id (some r) s =
        if is_empty r.reason
        then (s, failed 400 "reason is required")
        else if is_empty r.performed_by
        then (s, failed 400 "performedBy is required")
        else answer
            (λ _.
              done 200
                (record { asset_no = asset_no; status = codes "disposed"; detail = r.reason }))
            change_error
            (dispose_asset assets history tenant asset_no r.reason r.performed_by r.sale_value
              r.notes now id s)

    unfoldable pub asset_dispose_handler :
        Option Text
        → Text
        → (now : Time) → ObjectId
        → Option AssetDisposeRequest
        → Handler (Register A L H) AssetChanged
    unfolding in_tenant asset_no_of
    asset_dispose_handler context path now id body = in_tenant context (λ tenant s.
        let asset_no = asset_no_of (codes "/v1/assets/") (codes "/dispose") path in
        if is_empty asset_no
        then (s, failed 400 "asset number required")
        else dispose_body tenant asset_no now id body s)

abbrev categories_reply : Result (List AssetCategory) → Reply (List AssetCategory)
categories_reply (ok cats) = done 200 cats
categories_reply (err e) = failed_with 500 e

abbrev categories_of : Option ClassificationService → Reply (List AssetCategory)
categories_of none = failed 503 "classification service not available"
categories_of (some cs) = categories_reply (get_all_categories cs)

abbrev category_reply : Option AssetCategory → Reply AssetCategory
category_reply none = failed 404 "category not found"
category_reply (some cat) = done 200 cat

abbrev category_of : Option ClassificationService → Text → Reply AssetCategory
category_of none path = failed 503 "classification service not available"
category_of (some cs) path =
    let cat_no = asset_no_of (codes "/v1/assets/categories/") (codes "/types") path in
    if is_empty cat_no
    then failed 400 "category number required"
    else category_reply (get_category cs cat_no)

module _ {S : Type 0} (cs : Option ClassificationService) where
  unfoldable pub asset_categories_handler : Option Text → Handler S (List AssetCategory)
  unfolding in_tenant
  asset_categories_handler context = in_tenant context (λ tenant s. (s, categories_of cs))

  unfoldable pub asset_category_types_handler : Option Text → Text → Handler S AssetCategory
  unfolding in_tenant asset_no_of
  asset_category_types_handler context path =
      in_tenant context (λ tenant s. (s, category_of cs path))
