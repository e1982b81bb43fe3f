-- ===== src/Http/Asset/Handlers/Laws.antt =====
-- What the asset handlers answer.
use kd_server.Common.{
  suc, ◌≤◌, ◌≡◌, refl, ap, inl, inr, true, Option, none, some, List, [], ◌∷◌, map, arith,
  Bool-cases, length, all, All, Result, ok, err,
}
use mathlib.Core.Path.{subst}
use kd_server.Text.{Text, is_blank, same_iff}
use kd_server.Asset.{Asset, AssetQueryFilter}
use kd_server.Asset.Store.{asset_matches, query_assets}
use kd_server.Format.{ℤ, pos, negsuc, atoi}
use kd_server.Http.Asset.Handlers.{
  answer, limit_or_default, Query, query_limit, query_filter, list_response, assets_query_handler,
}
use kd_server.Asset.Store.Laws.{query_assets-matching}
use kd_server.Http.{Reply, failed_with, done}
use kd_server.Http.Asset.{AssetResponse, AssetListResponse, convert_asset_to_response, in_tenant}
use kd_server.Mongo.{Collection}
use kd_server.Mongo.Laws.{IsMongo}

limit_or_default_bounds : (n : Option ℤ) → (1 ≤ limit_or_default n) × (limit_or_default n ≤ 100)
limit_or_default_bounds none = (omega arith, omega arith)
limit_or_default_bounds (some (pos n)) = ground arith
limit_or_default_bounds (some (negsuc n)) = (omega arith, omega arith)

query_limit_bounds : (s : Text) → (1 ≤ query_limit s) × (query_limit s ≤ 100)
unfolding query_limit
query_limit_bounds s = limit_or_default_bounds (atoi s)

answer-done :
    {S A B : Type 0}
    → (f : A → B) (out : S × Result A) (s' : S) (b : B)
    → answer (λ a. done 200 (f a)) (failed_with 500) out ≡ (s', done 200 b)
    → (a : A) × (out ≡ (s', ok a)) × (f a ≡ b)
answer-done {S = S} {B = B} f (s, ok a) s' b h =
    let state : s ≡ s' = ap (λ (r : S × Reply B). r.0) h in
    let body : Path (Reply B) (done 200 (f a)) (done 200 b) = ap (λ (r : S × Reply B). r.1) h in
    (a, (λ i. (state i, ok a)), cc body)
answer-done {S = S} {B = B} f (s, err e) s' b h = absurd (
    let body : Path (Reply B) (failed_with 500 e) (done 200 b) = ap (λ (r : S × Reply B). r.1) h in
    cc body)

tenants :
    (filter : AssetQueryFilter) (ds : List Asset)
    → all (asset_matches filter) ds ≡ true
    → All (λ (a : AssetResponse). a.tenant_id ≡ filter.tenant_id) (map convert_asset_to_response ds)
unfolding asset_matches convert_asset_to_response
tenants filter [] h = tt
tenants filter (d ∷ ds) h =
    ((same_iff d.tenant_id filter.tenant_id).0 (ground arith), tenants filter ds (ground arith))

length-responses : (ds : List Asset) → length (map convert_asset_to_response ds) ≡ length ds
length-responses [] = refl
length-responses (d ∷ ds) = ap suc (length-responses ds)

-- A list of assets that is answered is one of the tenant's own assets, of at most 100, and of at most
-- the limit that the answer names, which is at least 1; and the store is as before.
pub assets_query_handler-page :
    {A : Type 0}
    → (assets : Collection A Asset) → IsMongo assets
    → (tenant : Text) (q : Query) (s s' : A) (r : AssetListResponse)
    → assets_query_handler assets (some tenant) q s ≡ (s', done 200 r)
    → All (λ a. a.tenant_id ≡ tenant) r.assets
      × (length r.assets ≤ r.limit)
      × (1 ≤ r.limit)
      × (r.limit ≤ 100)
      × (s ≡ s')
unfolding assets_query_handler in_tenant query_filter
assets_query_handler-page assets mongo tenant q s s' r h = elim (Bool-cases (is_blank tenant)) [
  | inl blank ↦ absurd (ground arith)
  | inr named ↦
      let filter = query_filter tenant q in
      let ((found, total), listed, body) =
        answer-done (list_response filter) (query_assets assets filter s) s' r
          (simp (named) at h) in
      let (fits, short, _, same_state, _) =
        query_assets-matching assets mongo filter s s' found total listed in
      let (low, high) = query_limit_bounds q.limit in
      let all_good : All (λ (a : AssetResponse). a.tenant_id ≡ tenant)
            (list_response filter (found, total)).assets
          × (length (list_response filter (found, total)).assets ≤ filter.limit) =
        (tenants filter found fits, omega (arith, short low, length-responses found)) in
      subst
        (λ x.
          All (λ (a : AssetResponse). a.tenant_id ≡ tenant) x.assets
          × (length x.assets ≤ x.limit)
          × (1 ≤ x.limit)
          × (x.limit ≤ 100)
          × (s ≡ s'))
        body (all_good.0, all_good.1, low, high, same_state)
]
