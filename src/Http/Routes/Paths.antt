-- ===== src/Http/Routes/Paths.antt =====
-- Paths that lie apart.
use kd_server.Common.{◌≢◌, ap, ◌∙◌, ◌≡◌, refl, sym, inl, inr, true, false}
use kd_server.Http.Routes.{
  asset_change, landing, admin_page, admin_api, healthz, review_decision, review_list, lookup_email,
  assets_query, lookup_phone, categories, resolve, asset_lookup, asset_ingest, category_types,
  ingest, Route, version, Features,
}
use kd_server.Http.Routes.Choice.{has_prefix-opened}
use kd_server.Http.Routes.Table.{has_prefix-Below}
use kd_server.Http.Routes.Served.{Below, OfCategories, Serves}
use mathlib.Core.Path.{subst}
use kd_server.Text.{Text, codes, same, has_prefix}

-- The root, the admin page and its interface are not below "/v1/".
abbrev pub Elsewhere : Text → Type 0
Elsewhere path =
    (same path (codes "/") ≡ false)
    × (same path (codes "/admin") ≡ false)
    × (has_prefix (codes "/admin/api/") path ≡ false)

pub below-Elsewhere : (path : Text) → has_prefix (codes "/v1/") path ≡ true → Elsewhere path
unfolding has_prefix
below-Elsewhere path below =
    subst Elsewhere (sym (has_prefix-opened (codes "/v1/") path below)) (refl, refl, refl)

elsewhere :
    (x path : Text)
    → Below (codes "/v1/assets/") path
    → path ≡ x
    → has_prefix (codes "/v1/assets/") x ≢ false
elsewhere x path below e apart =
    let z : true ≡ false =
      sym (has_prefix-Below (codes "/v1/assets/") path below)
      ∙ (ap (has_prefix (codes "/v1/assets/")) e ∙ apart) in
    cc

-- A path below "/v1/assets/" that is not of the categories is for no other route.
pub only_change :
    (f : Features) (route : Route) (path : Text)
    → Below (codes "/v1/assets/") path
    → (f.classification ≡ true → ¬ OfCategories path)
    → Serves f route path
    → route ≡ asset_change
unfolding has_prefix
only_change f landing path b n h = absurd h
only_change f admin_page path b n h = absurd h
only_change f admin_api path b n h = absurd h
only_change f healthz path b n h = absurd h
only_change f version path b n h = absurd (elsewhere _ path b h refl)
only_change f ingest path b n h = absurd (elsewhere _ path b h refl)
only_change f resolve path b n h = absurd (elsewhere _ path b h refl)
only_change f lookup_phone path b n (other, h) = absurd (elsewhere _ path b h refl)
only_change f lookup_email path b n (other, h) = absurd (elsewhere _ path b h refl)
only_change f review_list path b n h = absurd (elsewhere _ path b h refl)
only_change f review_decision path b n (other, h) = absurd (elsewhere _ path b h refl)
only_change f asset_ingest path b n (given, h) = absurd (elsewhere _ path b h refl)
only_change f asset_lookup path b n (given, (other, h)) = absurd (elsewhere _ path b h refl)
only_change f assets_query path b n (given, h) = absurd (elsewhere _ path b h refl)
only_change f asset_change path b n h = refl
only_change f category_types path b n (given, h) = absurd (n given (inr h))
only_change f categories path b n (given, h) = absurd (n given (inl h))
