-- ===== src/Asset/Store.antt =====
-- internal/store/asset.go, but for the asset numbers: assets, their links and their history. The
-- constructor of the store gives it a database, so that `s == nil` is the test of `configured`.
pub mod Laws
use kd_server.Common.{
  ℕ, zero, suc, ◌+◌, ◌-◌, ◌*◌, ◌/◌, ◌%◌, ◌^◌, ◌≤◌, ◌<◌, String, ◌≡◌, refl, sym, ap, ◌∙◌, ◌≢◌, ◌↔◌,
  ◌⊎◌, inl, inr, Bool, true, false, not, ◌&&◌, ◌||◌, Option, none, some, List, [], ◌∷◌, ◌++◌, map,
  Memᴰ, arith, ltb, leb, ◌==◌, ==_iff, within, if◌then◌else◌, Bool-cases, Option-cases,
  Result-cases, length, take, drop, any, all, keep, length-append, All, All-append, All-map,
  All-mem, Result, ok, err, Error, message, about, wrap, fault, no_documents, duplicate_key,
  is_no_documents,
}
use kd_server.Text.{
  Text, codes, same, is_empty, is_blank, is_space, trim_space, Casing, to_lower, to_upper,
  has_prefix, trim_prefix, cut, same_iff, same_refl,
}
use kd_server.Mongo.{
  Action, after, ◌>>=◌, ◌>>◌, pure, raise, require, on_error, reading, writing, Query, page,
  Collection,
}
use kd_server.Mongo.Laws.{
  IsMongo, Updated, missed, hit, Unique, Unique-eq, after-eq-ok, require-eq-ok, on_error-eq-ok,
  IsOrder,
}
use kd_server.Asset.{
  Float, AssetApproval, Asset, AssetLink, AssetHistory, AssetQueryFilter, AssetIngestRecord,
  AssetIngestError, AssetIngestResult, Register,
}
use kd_server.Format.{ℤ, pos, negsuc, atoi, format_04d}
use kd_server.Tenant.{ObjectId}
use kd_server.Json.{Json}
use kd_server.Time.{Time, is_zero, before, later_than}

-- `if asset.ID.IsZero() { asset.ID = primitive.NewObjectID() }`
abbrev pub nil_object_id : ObjectId
nil_object_id = codes "000000000000000000000000"

abbrev pub or_new_id : ObjectId → ObjectId → ObjectId
or_new_id id new = if same id nil_object_id then new else id

abbrev pub or_now : Time → Time → Time
or_now t now = if is_zero t then now else t

-- An `omitempty` field that is empty is not part of the `$set`, so that the document keeps its own.
abbrev pub or_kept : Text → Text → Text
or_kept [] old = old
or_kept (c ∷ s) old = c ∷ s

abbrev pub or_kept_option {ℓ} : {A : Type ℓ} → Option A → Option A → Option A
or_kept_option none old = old
or_kept_option (some a) old = some a

abbrev pub or_kept_int : ℤ → ℤ → ℤ
or_kept_int (pos zero) old = old
or_kept_int n old = n

abbrev pub or_kept_json : Json → Json → Json
or_kept_json [] old = old
or_kept_json (m ∷ ms) old = m ∷ ms

-- Both zeros of a `float64` are empty.
abbrev pub or_kept_float : Float → Float → Float
or_kept_float x old = if x == 0 || x == 9223372036854775808 then old else x

-- `bson.M{"$set": asset}`
unfoldable pub set_asset : Asset → Asset → Asset
set_asset a d = record a {
  category_name = or_kept a.category_name d.category_name;
  sub_category_no = or_kept a.sub_category_no d.sub_category_no;
  sub_category_name = or_kept a.sub_category_name d.sub_category_name;
  type_name = or_kept a.type_name d.type_name;
  description2 = or_kept a.description2 d.description2;
  use_of_asset = or_kept a.use_of_asset d.use_of_asset;
  vendor = or_kept a.vendor d.vendor;
  manufacturer = or_kept a.manufacturer d.manufacturer;
  use_commence_date = or_kept_option a.use_commence_date d.use_commence_date;
  country_of_origin = or_kept a.country_of_origin d.country_of_origin;
  type_brand = or_kept a.type_brand d.type_brand;
  useful_life_years = or_kept_int a.useful_life_years d.useful_life_years;
  depreciation_method = or_kept a.depreciation_method d.depreciation_method;
  residual_value = or_kept_float a.residual_value d.residual_value;
  business_area = or_kept a.business_area d.business_area;
  cost_centre = or_kept a.cost_centre d.cost_centre;
  creation_form_no = or_kept a.creation_form_no d.creation_form_no;
  requested_by = or_kept_option a.requested_by d.requested_by;
  authorized_by = or_kept_option a.authorized_by d.authorized_by;
  sap_asset_master_id = or_kept a.sap_asset_master_id d.sap_asset_master_id;
  barcode_id = or_kept a.barcode_id d.barcode_id;
  attributes = or_kept_json a.attributes d.attributes;
  created_by = or_kept a.created_by d.created_by;
}

abbrev pub nil_store : Error
nil_store = message "store: nil MongoStore"

-- The tenant and the number of an asset, of a link and of an event.
abbrev pub has_number : Text → Text → Asset → Bool
has_number tenant asset_no a = same a.tenant_id tenant && same a.asset_no asset_no

-- A missing asset is no error of `GetAssetByNumber`.
abbrev pub optional : Result Asset → Result (Option Asset)
optional (ok a) = ok (some a)
optional (err e) = if is_no_documents e then ok none else err (wrap "store: get asset by number" e)

abbrev pub given : Text → Text → Bool
given wanted value = is_empty wanted || same value wanted

abbrev pub since : Option Time → Time → Bool
since none t = true
since (some a) t = not (before t a)

abbrev pub until : Option Time → Time → Bool
until none t = true
until (some b) t = not (before b t)

-- The filter of `QueryAssets`.
unfoldable pub asset_matches : AssetQueryFilter → Asset → Bool
asset_matches f a =
    same a.tenant_id f.tenant_id
    && given f.office a.office
    && given f.category_no a.category_no
    && given f.type_number a.type_number
    && given f.status a.status
    && since f.acquisition_date_from a.acquisition_date
    && until f.acquisition_date_to a.acquisition_date

module _ {A : Type 0} (assets : Collection A Asset) where
  unfoldable pub create_asset : Asset → (now : Time) → (id : ObjectId) → Action A (Unit {0})
  create_asset asset now id = do
    require assets.configured nil_store
    writing (wrap "store: insert asset") (
        assets.insert_one (record asset {
          id = or_new_id asset.id id;
          created_at = or_now asset.created_at now;
          updated_at = now;
        }))

  unfoldable pub update_asset : Asset → (now : Time) → Action A (Unit {0})
  unfolding set_asset
  update_asset asset now = do
    require assets.configured nil_store
    matched ← writing (wrap "store: update asset") (
        assets.update_one (has_number asset.tenant_id asset.asset_no)
          (set_asset (record asset { updated_at = now })))
    require (not (matched == 0)) (message "store: asset not found")

  unfoldable pub get_asset_by_number : Text → Text → Action A (Option Asset)
  get_asset_by_number tenant asset_no = do
    require assets.configured nil_store
    reading (λ e. e) (λ s. optional (assets.find_one (has_number tenant asset_no) s))

  -- The cursor's reads are part of `find`.
  unfoldable pub query_assets : AssetQueryFilter → Action A (List Asset × ℕ)
  unfolding asset_matches
  query_assets filter = do
    require assets.configured nil_store
    total ← reading (wrap "store: count assets") (assets.count (asset_matches filter))
    found ← reading (wrap "store: find assets") (
        assets.find (record {
          matches = asset_matches filter;
          precedes = λ a b. not (before a.created_at b.created_at);
          skip = filter.offset;
          limit = filter.limit;
        }))
    pure (found, total)

module _ {L : Type 0} (links : Collection L AssetLink) where
  unfoldable pub create_asset_link :
      AssetLink → (now : Time) → (id : ObjectId) → Action L (Unit {0})
  create_asset_link link now id = do
    require links.configured nil_store
    writing (wrap "store: insert asset link") (
        links.insert_one (record link {
          id = or_new_id link.id id;
          created_at = or_now link.created_at now;
          updated_at = now;
        }))

  unfoldable pub get_asset_links : Text → Text → Action L (List AssetLink)
  get_asset_links tenant asset_no = do
    require links.configured nil_store
    reading (wrap "store: find asset links") (
        links.find (record {
          matches = λ l. same l.tenant_id tenant && same l.asset_no asset_no;
          precedes = λ k l. true;
          skip = 0;
          limit = 0;
        }))

module _ {H : Type 0} (history : Collection H AssetHistory) where
  unfoldable pub create_asset_history :
      AssetHistory → (now : Time) → (id : ObjectId) → Action H (Unit {0})
  create_asset_history event now id = do
    require history.configured nil_store
    writing (wrap "store: insert asset history") (
        history.insert_one
          (record event { id = or_new_id event.id id; timestamp = or_now event.timestamp now }))

  unfoldable pub get_asset_history : Text → Text → Action H (List AssetHistory)
  get_asset_history tenant asset_no = do
    require history.configured nil_store
    reading (wrap "store: find asset history") (
        history.find (record {
          matches = λ h. same h.tenant_id tenant && same h.asset_no asset_no;
          precedes = λ g h. not (before g.timestamp h.timestamp);
          skip = 0;
          limit = 0;
        }))
