-- ===== src/Http/Routes.antt =====
-- `NewHandler` of internal/http/server.go: the routes, and which of them the tenant middleware protects.
-- The services that every configuration has are not tested again. Of `http.ServeMux`, the longest pattern
-- that fits is taken, and a path that only lacks the last slash of a pattern is redirected; paths are clean
-- ones, since it redirects the others before. Logging is output.
pub mod Served
pub mod Choice
pub mod Table
pub mod Paths
pub mod Guarded
mod Tests
use kd_server.Common.{
  ℕ, zero, suc, ◌+◌, ◌-◌, ◌*◌, ◌/◌, ◌%◌, ◌^◌, ◌≤◌, ◌<◌, String, ◌≡◌, refl, sym, ap, ◌∙◌, ◌≢◌, ◌↔◌,
  ◌⊎◌, inl, inr, Bool, true, false, not, ◌&&◌, ◌||◌, Option, none, some, List, [], ◌∷◌, ◌++◌, map,
  Memᴰ, arith, ltb, leb, ◌==◌, ==_iff, within, if◌then◌else◌, Bool-cases, Option-cases,
  Result-cases, length, take, drop, any, all, keep, length-append, All, All-append, All-map,
  All-mem, Result, ok, err, Error, message, about, wrap, fault, no_documents, duplicate_key,
  is_no_documents,
}
use kd_server.Text.{
  Text, codes, same, is_empty, is_blank, is_space, trim_space, Casing, to_lower, to_upper,
  has_prefix, trim_prefix, cut, same_iff, same_refl,
}
use kd_server.Http.{Reply, failed, failed_with, done, Handler}
use kd_server.Http.Middleware.{Request, Verifiers, auth_middleware}

pub data Route : Type 0 where
  landing admin_page admin_api healthz version ingest resolve lookup_phone lookup_email : Route
  review_list review_decision asset_ingest asset_lookup assets_query : Route
  asset_change category_types categories : Route

-- The optional services of the configuration.
pub record Features : Type 0 where
  pub admin : Bool
  pub assets : Bool
  pub classification : Bool

abbrev pub Pattern : Type 0
Pattern = Text × Route

-- `if service != nil { … }`
abbrev pub where_given : Bool → List Pattern → List Pattern
where_given true ps = ps
where_given false ps = []

abbrev pub base_patterns : List Pattern
base_patterns =
    (codes "/", landing)
    ∷ (codes "/admin", admin_page)
    ∷ (codes "/v1/healthz", healthz)
    ∷ (codes "/v1/version", version)
    ∷ (codes "/v1/ingest", ingest)
    ∷ (codes "/v1/resolve", resolve)
    ∷ (codes "/v1/lookup/phone/", lookup_phone)
    ∷ (codes "/v1/lookup/email/", lookup_email)
    ∷ (codes "/v1/review", review_list)
    ∷ (codes "/v1/review/", review_decision)
    ∷ []

abbrev pub admin_patterns : List Pattern
admin_patterns = (codes "/admin/api/", admin_api) ∷ []

abbrev pub asset_patterns : List Pattern
asset_patterns =
    (codes "/v1/ingest/assets", asset_ingest)
    ∷ (codes "/v1/lookup/asset/", asset_lookup)
    ∷ (codes "/v1/assets", assets_query)
    ∷ (codes "/v1/assets/", asset_change)
    ∷ []

abbrev pub category_patterns : List Pattern
category_patterns =
    (codes "/v1/assets/categories/", category_types)
    ∷ (codes "/v1/assets/categories", categories)
    ∷ []

unfoldable pub patterns : Features → List Pattern
patterns f =
    base_patterns
    ++ (where_given f.admin admin_patterns
        ++ (where_given f.assets asset_patterns ++ where_given f.classification category_patterns))

-- A pattern with a slash at its end fits all paths below it, any other fits itself.
abbrev pub ends_with_slash : Text → Bool
ends_with_slash [] = false
ends_with_slash (c ∷ []) = c == b'/'
ends_with_slash (c ∷ d ∷ s) = ends_with_slash (d ∷ s)

unfoldable pub fits : Text → Text → Bool
unfolding has_prefix
fits pattern path = if ends_with_slash pattern then has_prefix pattern path else same path pattern

abbrev pub longer : Pattern → Option Pattern → Option Pattern
longer p none = some p
longer p (some q) = if ltb (length q.0) (length p.0) then some p else some q

-- `mux.Handler(path)`
unfoldable pub best : Text → List Pattern → Option Pattern
unfolding fits
best path [] = none
best path (p ∷ ps) = let rest = best path ps in if fits p.0 path then longer p rest else rest

-- The path is no pattern, and with a slash at its end it is one.
abbrev pub lacks_slash : Text → List Pattern → Bool
lacks_slash path ps =
    not (ends_with_slash path)
    && (not (any (λ (p : Pattern). same p.0 path) ps)
        && any (λ (p : Pattern). same p.0 (path ++ codes "/")) ps)

-- `strings.HasSuffix`
abbrev pub has_suffix : Text → Text → Bool
has_suffix s end = leb (length end) (length s) && same (drop (length s - length end) s) end

pub record HttpRequest : Type 0 where
  pub path : Text
  pub method : Text
  pub credentials : Request

-- The three handlers below "/v1/assets/".
pub data AssetChange : Type 0 where
  history transfer dispose : AssetChange

unfoldable pub asset_change_of : HttpRequest → Option AssetChange
asset_change_of r =
    if has_suffix r.path (codes "/history")
    then some history
    else if has_suffix r.path (codes "/transfer") && same r.method (codes "POST")
    then some transfer
    else if has_suffix r.path (codes "/dispose") && same r.method (codes "POST")
    then some dispose
    else none

-- The handlers of the routes: those that need no tenant, the redirect of `http.ServeMux` to a path among
-- them, and those that the middleware hands one.
pub record Handlers (S B : Type 0) : Type 0 where
  pub redirect : Text → Handler S B
  pub landing_page : Handler S B
  pub admin_html : Handler S B
  pub admin_handler : HttpRequest → Handler S B
  pub health : Handler S B
  pub of_route : Route → HttpRequest → Text → Handler S B
  pub of_change : AssetChange → HttpRequest → Text → Handler S B

module _ {S B : Type 0} (v : Verifiers S) (h : Handlers S B) where
  -- `landingHandler` of internal/http/admin.go
  abbrev pub landing_handler : HttpRequest → Handler S B
  landing_handler r s =
      if same r.path (codes "/") then h.landing_page s else (s, failed 404 "404 page not found")

  -- The handler below "/v1/assets/".
  abbrev pub change_handler : HttpRequest → Option AssetChange → Handler S B
  change_handler r none s = (s, failed 404 "not found")
  change_handler r (some c) s = auth_middleware v (h.of_change c r) r.credentials s

  abbrev pub route_handler : HttpRequest → Option Pattern → Handler S B
  route_handler r none s = (s, failed 404 "404 page not found")
  route_handler r (some (p, landing)) s = landing_handler r s
  route_handler r (some (p, admin_page)) s = h.admin_html s
  route_handler r (some (p, admin_api)) s = h.admin_handler r s
  route_handler r (some (p, healthz)) s = h.health s
  route_handler r (some (p, asset_change)) s = change_handler r (asset_change_of r) s
  route_handler r (some (p, route)) s = auth_middleware v (h.of_route route r) r.credentials s

  unfoldable pub new_handler : Features → HttpRequest → Handler S B
  unfolding best patterns asset_change_of
  new_handler f r s =
      if lacks_slash r.path (patterns f)
      then h.redirect (r.path ++ codes "/") s
      else route_handler r (best r.path (patterns f)) s
