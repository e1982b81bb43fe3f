-- ===== src/Asset/Service.antt =====
-- internal/services/asset.go, but for the ingest: lookup, query, transfer and disposal of an asset. The
-- history of an asset is written behind the asset; its errors are dropped.
pub mod Laws
use kd_server.Common.{
  ℕ, zero, suc, ◌+◌, ◌-◌, ◌*◌, ◌/◌, ◌%◌, ◌^◌, ◌≤◌, ◌<◌, String, ◌≡◌, refl, sym, ap, ◌∙◌, ◌≢◌, ◌↔◌,
  ◌⊎◌, inl, inr, Bool, true, false, not, ◌&&◌, ◌||◌, Option, none, some, List, [], ◌∷◌, ◌++◌, map,
  Memᴰ, arith, ltb, leb, ◌==◌, ==_iff, within, if◌then◌else◌, Bool-cases, Option-cases,
  Result-cases, length, take, drop, any, all, keep, length-append, All, All-append, All-map,
  All-mem, Result, ok, err, Error, message, about, wrap, fault, no_documents, duplicate_key,
  is_no_documents,
}
use kd_server.Text.{
  Text, codes, same, is_empty, is_blank, is_space, trim_space, Casing, to_lower, to_upper,
  has_prefix, trim_prefix, cut, same_iff, same_refl,
}
use kd_server.Mongo.{
  Action, after, ◌>>=◌, ◌>>◌, pure, raise, require, on_error, reading, writing, Query, page,
  Collection,
}
use kd_server.Mongo.Laws.{
  IsMongo, Updated, missed, hit, Unique, Unique-eq, after-eq-ok, require-eq-ok, on_error-eq-ok,
  IsOrder,
}
use kd_server.Asset.{
  Float, AssetApproval, Asset, AssetLink, AssetHistory, AssetQueryFilter, AssetIngestRecord,
  AssetIngestError, AssetIngestResult, Register,
}
use kd_server.Asset.Store.{
  nil_store, nil_object_id, or_new_id, or_now, or_kept, set_asset, has_number, optional, given,
  since, until, asset_matches, create_asset, update_asset, get_asset_by_number, query_assets,
  create_asset_link, get_asset_links, create_asset_history, get_asset_history,
}
use kd_server.Format.{ℤ, pos, negsuc, atoi, pad4, digit, format_04d, next_int}
use kd_server.Tenant.{ObjectId}
use kd_server.Time.{Time, is_zero, zero_time, before, later_than}
use kd_server.Asset.Number.{matches_asset_no, generate_asset_number}

module _ {A L H : Type 0} where
  abbrev pub on_assets : {B : Type 0} → Action A B → Action (Register A L H) B
  on_assets m s = let (a, r) = m s.assets in (record s { assets = a }, r)

  abbrev pub on_links : {B : Type 0} → Action L B → Action (Register A L H) B
  on_links m s = let (l, r) = m s.links in (record s { links = l }, r)

  abbrev pub on_history : {B : Type 0} → Action H B → Action (Register A L H) B
  on_history m s = let (h, r) = m s.history in (record s { history = h }, r)

-- `_ = err`: what a call leaves, whether it failed or not.
abbrev pub ignoring : {S : Type 0} → Action S (Unit {0}) → Action S (Unit {0})
ignoring m s = ((m s).0, ok tt)

-- `%.2f` of a `float64`.
pub record FloatFormat : Type 0 where
  pub fixed2 : Float → Text

-- `x > 0`: no sign, not zero, and not a NaN.
unfoldable pub is_positive : Float → Bool
is_positive x = within 1 0x7FF0000000000000 x

-- `x <= 0`: a zero, or signed and not a NaN.
unfoldable pub not_positive : Float → Bool
not_positive x = x == 0 || within 0x8000000000000000 0xFFF0000000000000 x

-- An event, before the store gives it an id and a time.
abbrev pub event : Text → Text → Text → Text → Text → Text → Text → AssetHistory
event asset_no tenant event_type from_location to_location performed_by notes = record {
  id = nil_object_id;
  asset_no = asset_no;
  tenant_id = tenant;
  event_type = event_type;
  from_location = from_location;
  to_location = to_location;
  performed_by = performed_by;
  notes = notes;
  timestamp = zero_time;
}

abbrev pub asset_not_found : Error
asset_not_found = message "asset not found"

abbrev pub required_asset : {S : Type 0} → Option Asset → Action S Asset
required_asset none = raise asset_not_found
required_asset (some a) = pure a

-- `historyNotes` of `DisposeAsset`.
module _ ⦃f : FloatFormat⦄ where
  unfoldable pub dispose_notes : Text → Float → Text → Text
  unfolding is_positive
  dispose_notes reason sale_value notes =
      codes "Reason: "
      ++ reason
      ++ (if is_positive sale_value then codes " | Sale Value: " ++ f.fixed2 sale_value else [])
      ++ (if is_empty notes then [] else codes " | " ++ notes)

module _ {A L H : Type 0} (assets : Collection A Asset) (links : Collection L AssetLink) where
  -- The links of the asset that was found, if any.
  abbrev pub with_links :
      Text → Text → Option Asset → Action (Register A L H) (Option (Asset × List AssetLink))
  with_links tenant asset_no none = pure none
  with_links tenant asset_no (some a) = do
    ls ← on_links (λ l.
        let (l', r) = get_asset_links links tenant asset_no l in
        (l', on_error (wrap "get asset links") r))
    pure (some (a, ls))

  unfoldable pub get_asset : Text → Text → Action (Register A L H) (Option (Asset × List AssetLink))
  get_asset tenant asset_no = do
    require (matches_asset_no asset_no) (about "invalid asset number format" asset_no)
    found ← on_assets (writing (wrap "get asset") (get_asset_by_number assets tenant asset_no))
    with_links tenant asset_no found

module _ {A L H : Type 0} (assets : Collection A Asset) (history : Collection H AssetHistory) where
  unfoldable pub transfer_asset :
      Text
      → Text
      → Text
      → Text
      → Text
      → (now : Time) → ObjectId
      → Action (Register A L H) (Unit {0})
  transfer_asset tenant asset_no to_location performed_by notes now id = do
    found ← on_assets (writing (wrap "get asset") (get_asset_by_number assets tenant asset_no))
    asset ← required_asset found
    on_assets (
        writing (wrap "update asset")
          (update_asset assets (record asset { location = to_location; updated_at = now }) now))
    ignoring (
        on_history (
          create_asset_history history
            (event asset_no tenant (codes "transfer") asset.location to_location performed_by notes)
            now id))

  unfoldable pub dispose_asset :
      ⦃f : FloatFormat⦄
      → Text
      → Text
      → Text
      → Text
      → Float
      → Text
      → (now : Time) → ObjectId
      → Action (Register A L H) (Unit {0})
  unfolding dispose_notes
  dispose_asset tenant asset_no reason performed_by sale_value notes now id = do
    found ← on_assets (writing (wrap "get asset") (get_asset_by_number assets tenant asset_no))
    asset ← required_asset found
    on_assets (
        writing (wrap "update asset")
          (update_asset assets (record asset { status = codes "disposed"; updated_at = now }) now))
    ignoring (
        on_history (
          create_asset_history history
            (event asset_no tenant (codes "dispose") [] [] performed_by
              (dispose_notes reason sale_value notes))
            now id))
