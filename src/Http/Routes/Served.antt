-- ===== src/Http/Routes/Served.antt =====
-- Which requests the routes of `NewHandler` are for, without a table of patterns.
use kd_server.Common.{
  ℕ, zero, suc, ◌-◌, ◌≡◌, refl, sym, ap, ◌∙◌, ◌⊎◌, inl, inr, true, ◌&&◌, Option, none, some, [],
  ◌∷◌, ◌++◌, arith, leb, Bool-cases, length, length-append, take, drop,
}
use kd_server.Text.{Text, codes, same, same_iff}
use mathlib.Core.Path.{subst}
use kd_server.Http.Routes.{
  Route, landing, admin_page, admin_api, healthz, version, ingest, resolve, lookup_phone,
  lookup_email, review_list, review_decision, asset_ingest, asset_lookup, assets_query,
  asset_change, category_types, categories, Features, has_suffix, HttpRequest, AssetChange, history,
  transfer, dispose, asset_change_of,
}

abbrev pub Below : Text → Text → Type 0
Below start path = (rest : Text) × (path ≡ start ++ rest)

abbrev pub Ends : Text → Text → Type 0
Ends end path = (start : Text) × (path ≡ start ++ end)

-- The paths of the category routes.
abbrev pub OfCategories : Text → Type 0
OfCategories path =
    (path ≡ codes "/v1/assets/categories") ⊎ Below (codes "/v1/assets/categories/") path

-- The paths that a route for tenants is for. The asset routes are there where the service of the assets
-- is, and the category routes where the one of the classification is.
abbrev pub Serves : Features → Route → Text → Type 0
Serves f landing path = ⊥
Serves f admin_page path = ⊥
Serves f admin_api path = ⊥
Serves f healthz path = ⊥
Serves f version path = path ≡ codes "/v1/version"
Serves f ingest path = path ≡ codes "/v1/ingest"
Serves f resolve path = path ≡ codes "/v1/resolve"
Serves f lookup_phone path = Below (codes "/v1/lookup/phone/") path
Serves f lookup_email path = Below (codes "/v1/lookup/email/") path
Serves f review_list path = path ≡ codes "/v1/review"
Serves f review_decision path = Below (codes "/v1/review/") path
Serves f asset_ingest path = (f.assets ≡ true) × (path ≡ codes "/v1/ingest/assets")
Serves f asset_lookup path = (f.assets ≡ true) × Below (codes "/v1/lookup/asset/") path
Serves f assets_query path = (f.assets ≡ true) × (path ≡ codes "/v1/assets")
Serves f asset_change path =
    (f.assets ≡ true)
    × Below (codes "/v1/assets/") path
    × ((f.classification ≡ true) → ¬ OfCategories path)
Serves f category_types path =
    (f.classification ≡ true) × Below (codes "/v1/assets/categories/") path
Serves f categories path = (f.classification ≡ true) × (path ≡ codes "/v1/assets/categories")

-- What a request below "/v1/assets/" asks for, by the end of its path and its method.
abbrev pub Asks : AssetChange → HttpRequest → Type 0
Asks history r = Ends (codes "/history") r.path
Asks transfer r = Ends (codes "/transfer") r.path × (r.method ≡ codes "POST")
Asks dispose r = Ends (codes "/dispose") r.path × (r.method ≡ codes "POST")

take-drop : (n : ℕ) (s : Text) → take n s ++ drop n s ≡ s
take-drop zero s = refl
take-drop (suc n) [] = refl
take-drop (suc n) (c ∷ s) = λ i. c ∷ take-drop n s i

has_suffix-Ends : (s end : Text) → has_suffix s end ≡ true → Ends end s
has_suffix-Ends s end h = elim (Bool-cases (same (drop (length s - length end) s) end)) [
  | inl y ↦ (
    take (length s - length end) s,
    sym (take-drop (length s - length end) s)
        ∙ ap (λ x. take (length s - length end) s ++ x) ((same_iff _ _).0 y),
  )
  | inr n ↦ absurd (ground arith)
]

drop-append : (s end : Text) → drop (length (s ++ end) - length end) (s ++ end) ≡ end
drop-append s end =
    let size : length (s ++ end) - length end ≡ length s = omega (arith, length-append s end) in
    subst (λ n. drop n (s ++ end) ≡ end) (sym size) (past s)
  where
    past : (s : Text) → drop (length s) (s ++ end) ≡ end
    past [] = refl
    past (c ∷ s) = past s

Ends-has_suffix : (s end : Text) → Ends end s → has_suffix s end ≡ true
Ends-has_suffix s end (start, e) =
    let fits_in : leb (length end) (length (start ++ end)) ≡ true =
      ground (arith, length-append start end) in
    let tail : same (drop (length (start ++ end) - length end) (start ++ end)) end ≡ true =
      (same_iff _ _).1 (drop-append start end) in
    subst (λ x. has_suffix x end ≡ true) (sym e) (rw (fits_in, tail) refl)

pub asset_change_of-Asks :
    (r : HttpRequest) (c : AssetChange) → asset_change_of r ≡ some c → Asks c r
unfolding asset_change_of
asset_change_of-Asks r c h = elim (Bool-cases (has_suffix r.path (codes "/history"))) [
  | inl y ↦
      let one : history ≡ c = (let g : some history ≡ some c = rw y at h in cc) in
      subst (λ x. Asks x r) one (has_suffix-Ends r.path (codes "/history") y)
  | inr n ↦
      elim (Bool-cases (has_suffix r.path (codes "/transfer") && same r.method (codes "POST"))) [
        | inl y ↦
            let one : transfer ≡ c = (let g : some transfer ≡ some c = rw (n, y) at h in cc) in
            subst (λ x. Asks x r) one (asked (codes "/transfer") y)
        | inr m ↦
            elim (Bool-cases
              (has_suffix r.path (codes "/dispose") && same r.method (codes "POST"))) [
                | inl y ↦
                    let one : dispose ≡ c =
                      (let g : some dispose ≡ some c = rw (n, m, y) at h in cc) in
                    subst (λ x. Asks x r) one (asked (codes "/dispose") y)
                | inr k ↦
                    absurd
                      (let g : Path (Option AssetChange) none (some c) = rw (n, m, k) at h in cc)
              ]
      ]
]
  where
    asked :
        (end : Text)
        → (has_suffix r.path end && same r.method (codes "POST")) ≡ true
        → Ends end r.path × (r.method ≡ codes "POST")
    asked end y = (has_suffix-Ends r.path end (ground arith), (same_iff _ _).0 (ground arith))

pub asset_change_of-missing :
    (r : HttpRequest) → asset_change_of r ≡ none → (c : AssetChange) → ¬ Asks c r
unfolding asset_change_of
asset_change_of-missing r h history asks =
    let y = Ends-has_suffix r.path (codes "/history") asks in
    let g : Path (Option AssetChange) (some history) none = rw y at h in cc
asset_change_of-missing r h transfer (end, post) =
    let y = Ends-has_suffix r.path (codes "/transfer") end in
    let m = (same_iff r.method (codes "POST")).1 post in
    elim (Bool-cases (has_suffix r.path (codes "/history"))) [
      | inl first ↦ let g : Path (Option AssetChange) (some history) none = rw first at h in cc
      | inr n ↦ let g : Path (Option AssetChange) (some transfer) none = rw (n, y, m) at h in cc
    ]
asset_change_of-missing r h dispose (end, post) =
    let y = Ends-has_suffix r.path (codes "/dispose") end in
    let m = (same_iff r.method (codes "POST")).1 post in
    elim (Bool-cases (has_suffix r.path (codes "/history"))) [
      | inl first ↦ let g : Path (Option AssetChange) (some history) none = rw first at h in cc
      | inr n ↦ elim (Bool-cases (has_suffix r.path (codes "/transfer"))) [
        | inl second ↦
            let g : Path (Option AssetChange) (some transfer) none = rw (n, second, m) at h in cc
        | inr k ↦ let g : Path (Option AssetChange) (some dispose) none = rw (n, k, y, m) at h in cc
      ]
    ]
