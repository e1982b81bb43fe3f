-- ===== src/Http/Routes/Guarded.antt =====
-- The tenant middleware stands before every route below "/v1/" but the health check.
use kd_server.Common.{
  ◌≤◌, arith, String, ◌≡◌, refl, inl, inr, Bool, true, false, Option, none, some, List, ◌++◌,
  Bool-cases, length, drop, All, All-append, All-mem,
}
use kd_server.Text.{same_iff, Text, codes, same, has_prefix}
use kd_server.Http.Routes.{
  asset_change, review_decision, review_list, lookup_email, assets_query, lookup_phone, categories,
  resolve, asset_lookup, asset_ingest, category_types, ingest, Route, version, Features, Pattern,
  where_given, base_patterns, admin_patterns, asset_patterns, category_patterns, patterns, fits,
  best, lacks_slash, HttpRequest, AssetChange, asset_change_of, Handlers, change_handler,
  route_handler, new_handler,
}
use kd_server.Http.Routes.Choice.{best-fits, best-missing, best-Longest, Longest, has_prefix-opened}
use kd_server.Http.Routes.Table.{OfCategories-HasPattern, Serves-HasPattern}
use kd_server.Http.Routes.Served.{
  Below, OfCategories, Serves, Asks, asset_change_of-Asks, asset_change_of-missing,
}
use kd_server.Http.{Reply, failed}
use kd_server.Http.Middleware.{Verifiers, auth_middleware}
use kd_server.Http.Middleware.Laws.{Outcome, auth_middleware-Outcome}
use kd_server.Http.Routes.Paths.{Elsewhere, below-Elsewhere, only_change}

where_given-All :
    (P : Pattern → Type 0) (given : Bool) (ps : List Pattern)
    → (given ≡ true → All P ps)
    → All P (where_given given ps)
where_given-All P true ps h = h refl
where_given-All P false ps h = tt

module _ {S B : Type 0} (v : Verifiers S) (h : Handlers S B) (f : Features) (r : HttpRequest)
    (s : S) where
  -- No route for tenants is for the path, or only the one below "/v1/assets/", and the request asks it for
  -- none of its changes.
  abbrev pub Unserved : Type 0
  Unserved =
      (route : Route)
      → Serves f route r.path
      → (route ≡ asset_change) × ((c : AssetChange) → ¬ Asks c r)

  -- How a request below "/v1/" is answered: through the middleware, with the handler behind it of the
  -- route that the path is for, and of the change that it asks for; by 404 without a change, where there
  -- is none; or by the redirect of a path that lacks the slash of a pattern.
  pub data Protected (out : S × Reply B) : Type 0 where
    behind :
        (route : Route)
        → Serves f route r.path
        → Outcome v (h.of_route route r) r.credentials s out
        → Protected out
    behind_change :
        (c : AssetChange)
        → Serves f asset_change r.path
        → Asks c r
        → Outcome v (h.of_change c r) r.credentials s out
        → Protected out
    not_found : (why : String) → Unserved → out ≡ (s, failed 404 why) → Protected out
    redirected :
        lacks_slash r.path (patterns f) ≡ true
        → out ≡ h.redirect (r.path ++ codes "/") s
        → Protected out

  abbrev Closed : Pattern → Type 0
  Closed p =
      fits p.0 r.path ≡ true
      → Longest r.path (patterns f) p.0
      → Protected (route_handler v h r (some p) s)

  behind_middleware :
      (route : Route)
      → Serves f route r.path
      → Protected (auth_middleware v (h.of_route route r) r.credentials s)
  behind_middleware route serves =
      behind route serves (auth_middleware-Outcome v (h.of_route route r) r.credentials s)

  exactly : (p : Text) → same r.path p ≡ true → r.path ≡ p
  exactly p e = (same_iff _ _).0 e

  under : (p : Text) → has_prefix p r.path ≡ true → Below p r.path
  under p e = (drop (length p) r.path, has_prefix-opened p r.path e)

  change_handler-Protected :
      (o : Option AssetChange)
      → asset_change_of r ≡ o
      → Serves f asset_change r.path
      → Protected (change_handler v h r o s)
  change_handler-Protected none e (given, below, apart) =
      not_found "not found"
        (λ route serves.
          (only_change f route r.path below apart serves, asset_change_of-missing r e))
        refl
  change_handler-Protected (some c) e serves =
      behind_change c serves (asset_change_of-Asks r c e)
        (auth_middleware-Outcome v (h.of_change c r) r.credentials s)

  -- Where the longest pattern is short, the path is not of the categories, and no route is for it.
  not-OfCategories :
      (p : Text)
      → Longest r.path (patterns f) p
      → length p ≤ 19
      → f.classification ≡ true
      → ¬ OfCategories r.path
  not-OfCategories p longest short given cats =
      let (q, m, fit, long) = OfCategories-HasPattern f r.path given cats in
      let bound =
        All-mem (λ (x : Pattern). fits x.0 r.path ≡ true → length x.0 ≤ length p) (patterns f)
          longest m fit in
      omega (arith, bound, long, short)

  root-Unserved : (p : Text) → Longest r.path (patterns f) p → length p ≤ 1 → Unserved
  root-Unserved p longest short route serves =
      let (q, m, fit, long) = Serves-HasPattern f route r.path serves in
      let bound =
        All-mem (λ (x : Pattern). fits x.0 r.path ≡ true → length x.0 ≤ length p) (patterns f)
          longest m fit in
      absurd (omega (arith, bound, long, short))

  missing-Unserved : best r.path (patterns f) ≡ none → Unserved
  missing-Unserved e route serves =
      let (q, m, fit, long) = Serves-HasPattern f route r.path serves in
      let apart =
        All-mem (λ (x : Pattern). fits x.0 r.path ≡ false) (patterns f)
          (best-missing r.path (patterns f) e) m in
      cc (apart, fit)

  module _ (below : has_prefix (codes "/v1/") r.path ≡ true)
      (not_health : same r.path (codes "/v1/healthz") ≡ false) where
    apart : Elsewhere r.path
    apart = below-Elsewhere r.path below

    base-Closed : All Closed base_patterns
    unfolding fits
    base-Closed = (
      (λ e longest.
          not_found "404 page not found" (root-Unserved (codes "/") longest (omega arith))
            (rw apart.0)),
      (
        (λ e longest. cc (e, apart.1)),
        (
          (λ e longest. cc (e, not_health)),
          (
            (λ e longest. behind_middleware version (exactly (codes "/v1/version") e)),
            (
              (λ e longest. behind_middleware ingest (exactly (codes "/v1/ingest") e)),
              (
                (λ e longest. behind_middleware resolve (exactly (codes "/v1/resolve") e)),
                (
                  (λ e longest.
                      behind_middleware lookup_phone (under (codes "/v1/lookup/phone/") e)),
                  (
                    (λ e longest.
                        behind_middleware lookup_email (under (codes "/v1/lookup/email/") e)),
                    (
                      (λ e longest. behind_middleware review_list (exactly (codes "/v1/review") e)),
                      (
                        (λ e longest.
                            behind_middleware review_decision (under (codes "/v1/review/") e)),
                        tt,
                      ),
                    ),
                  ),
                ),
              ),
            ),
          ),
        ),
      ),
    )

    admin-Closed : All Closed admin_patterns
    unfolding fits
    admin-Closed = (λ e longest. cc (e, apart.2), tt)

    asset-Closed : f.assets ≡ true → All Closed asset_patterns
    unfolding fits
    asset-Closed given = (
      (λ e longest. behind_middleware asset_ingest (given, exactly (codes "/v1/ingest/assets") e)),
      (
        (λ e longest. behind_middleware asset_lookup (given, under (codes "/v1/lookup/asset/") e)),
        (
          (λ e longest. behind_middleware assets_query (given, exactly (codes "/v1/assets") e)),
          (
            (λ e longest. change_handler-Protected (asset_change_of r) refl (
              given,
              under (codes "/v1/assets/") e,
              not-OfCategories (codes "/v1/assets/") longest (omega arith),
            )),
            tt,
          ),
        ),
      ),
    )

    category-Closed : f.classification ≡ true → All Closed category_patterns
    unfolding fits
    category-Closed given = (
      (λ e longest.
          behind_middleware category_types (given, under (codes "/v1/assets/categories/") e)),
      (
        (λ e longest.
            behind_middleware categories (given, exactly (codes "/v1/assets/categories") e)),
        tt,
      ),
    )

    patterns-Closed : All Closed (patterns f)
    unfolding patterns
    patterns-Closed = All-append Closed base_patterns _ base-Closed (
        All-append Closed (where_given f.admin admin_patterns) _
          (where_given-All Closed f.admin admin_patterns (λ _. admin-Closed))
          (All-append Closed (where_given f.assets asset_patterns) _
            (where_given-All Closed f.assets asset_patterns asset-Closed)
            (where_given-All Closed f.classification category_patterns category-Closed)))

    route_handler-Protected :
        (o : Option Pattern) → best r.path (patterns f) ≡ o → Protected (route_handler v h r o s)
    route_handler-Protected none e = not_found "404 page not found" (missing-Unserved e) refl
    route_handler-Protected (some p) e =
        let (m, fit) = best-fits r.path (patterns f) p e in
        All-mem Closed (patterns f) patterns-Closed m fit (best-Longest r.path (patterns f) p e)

    -- For every configuration, a request whose path begins with "/v1/" and is not "/v1/healthz" is
    -- answered in one of three ways. The tenant middleware answers it, with the handler behind it of the
    -- route that the path is for; below "/v1/assets/", but for the paths of the categories where these
    -- are configured, that is the handler that the end of the path and the method ask for. Or it is
    -- answered by 404 with the state as it was, only where no such route or handler is for it. Or it
    -- lacks just the slash at the end of a pattern, and is redirected to the path with it.
    pub new_handler-Protected : Protected (new_handler v h f r s)
    unfolding new_handler
    new_handler-Protected = elim (Bool-cases (lacks_slash r.path (patterns f))) [
      | inl moved ↦ redirected moved (rw moved)
      | inr stays ↦ rw stays (route_handler-Protected (best r.path (patterns f)) refl)
    ]
