-- ===== src/Http/Routes/Table.antt =====
-- Every path that a route for tenants is for has a pattern in the table of `NewHandler`.
use kd_server.Common.{
  ℕ, ◌≤◌, ◌≡◌, refl, sym, inl, inr, Bool, true, false, List, [], ◌∷◌, ◌++◌, Memᴰ, arith, ==_iff,
  length,
}
use mathlib.Core.Path.{subst}
use kd_server.Text.{Text, codes, has_prefix, same_iff}
use kd_server.Http.Routes.Served.{Below, OfCategories, Serves}
use kd_server.Http.Routes.{
  review_decision, review_list, lookup_email, assets_query, lookup_phone, categories, resolve,
  asset_lookup, asset_ingest, asset_change, category_types, ingest, landing, admin_page, admin_api,
  healthz, Route, version, Features, Pattern, where_given, base_patterns, admin_patterns,
  asset_patterns, category_patterns, patterns, fits,
}

has_prefix-append : (p s : Text) → has_prefix p (p ++ s) ≡ true
unfolding has_prefix
has_prefix-append [] s = refl
has_prefix-append (c ∷ p) s = rw ((==_iff c c).1 refl, has_prefix-append p s) refl

pub has_prefix-Below : (p path : Text) → Below p path → has_prefix p path ≡ true
has_prefix-Below p path (rest, e) =
    subst (λ x. has_prefix p x ≡ true) (sym e) (has_prefix-append p rest)

mem_left : (xs ys : List Pattern) {q : Pattern} → Memᴰ q xs → Memᴰ q (xs ++ ys)
mem_left [] ys m = elim m [ ]
mem_left (x ∷ xs) ys (Memᴰ.head e) = Memᴰ.head e
mem_left (x ∷ xs) ys (Memᴰ.tail m) = Memᴰ.tail (mem_left xs ys m)

mem_right : (xs ys : List Pattern) {q : Pattern} → Memᴰ q ys → Memᴰ q (xs ++ ys)
mem_right [] ys m = m
mem_right (x ∷ xs) ys m = Memᴰ.tail (mem_right xs ys m)

mem_given :
    (given : Bool) (ps : List Pattern) {q : Pattern}
    → given ≡ true
    → Memᴰ q ps
    → Memᴰ q (where_given given ps)
mem_given true ps e m = m
mem_given false ps e m = cc

module _ (f : Features) where
  in_base : {q : Pattern} → Memᴰ q base_patterns → Memᴰ q (patterns f)
  unfolding patterns
  in_base m = mem_left base_patterns _ m

  in_assets : {q : Pattern} → f.assets ≡ true → Memᴰ q asset_patterns → Memᴰ q (patterns f)
  unfolding patterns
  in_assets given m = mem_right base_patterns _ (
      mem_right (where_given f.admin admin_patterns) _ (
        mem_left (where_given f.assets asset_patterns) _
          (mem_given f.assets asset_patterns given m)))

  in_categories :
      {q : Pattern} → f.classification ≡ true → Memᴰ q category_patterns → Memᴰ q (patterns f)
  unfolding patterns
  in_categories given m = mem_right base_patterns _ (
      mem_right (where_given f.admin admin_patterns) _ (
        mem_right (where_given f.assets asset_patterns) _
          (mem_given f.classification category_patterns given m)))

  -- A pattern of the table fits the path, of the length n or longer.
  abbrev pub HasPattern : ℕ → Text → Type 0
  HasPattern n path =
      (q : Pattern) × Memᴰ q (patterns f) × (fits q.0 path ≡ true) × (n ≤ length q.0)

  pub OfCategories-HasPattern :
      (path : Text) → f.classification ≡ true → OfCategories path → HasPattern 20 path
  unfolding fits
  OfCategories-HasPattern path given (inl e) = (
    (codes "/v1/assets/categories", categories),
    in_categories given (Memᴰ.tail (Memᴰ.head refl)),
    (same_iff path (codes "/v1/assets/categories")).1 e,
    omega arith,
  )
  OfCategories-HasPattern path given (inr below) = (
    (codes "/v1/assets/categories/", category_types),
    in_categories given (Memᴰ.head refl),
    has_prefix-Below (codes "/v1/assets/categories/") path below,
    omega arith,
  )

  pub Serves-HasPattern : (route : Route) (path : Text) → Serves f route path → HasPattern 2 path
  unfolding fits
  Serves-HasPattern landing path h = absurd h
  Serves-HasPattern admin_page path h = absurd h
  Serves-HasPattern admin_api path h = absurd h
  Serves-HasPattern healthz path h = absurd h
  Serves-HasPattern version path h = (
    (codes "/v1/version", version),
    in_base (Memᴰ.tail (Memᴰ.tail (Memᴰ.tail (Memᴰ.head refl)))),
    (same_iff path (codes "/v1/version")).1 h,
    omega arith,
  )
  Serves-HasPattern ingest path h = (
    (codes "/v1/ingest", ingest),
    in_base (Memᴰ.tail (Memᴰ.tail (Memᴰ.tail (Memᴰ.tail (Memᴰ.head refl))))),
    (same_iff path (codes "/v1/ingest")).1 h,
    omega arith,
  )
  Serves-HasPattern resolve path h = (
    (codes "/v1/resolve", resolve),
    in_base (Memᴰ.tail (Memᴰ.tail (Memᴰ.tail (Memᴰ.tail (Memᴰ.tail (Memᴰ.head refl)))))),
    (same_iff path (codes "/v1/resolve")).1 h,
    omega arith,
  )
  Serves-HasPattern lookup_phone path h = (
    (codes "/v1/lookup/phone/", lookup_phone),
    in_base
        (Memᴰ.tail (Memᴰ.tail (Memᴰ.tail (Memᴰ.tail (Memᴰ.tail (Memᴰ.tail (Memᴰ.head refl))))))),
    has_prefix-Below (codes "/v1/lookup/phone/") path h,
    omega arith,
  )
  Serves-HasPattern lookup_email path h = (
    (codes "/v1/lookup/email/", lookup_email),
    in_base (
        Memᴰ.tail
          (Memᴰ.tail (Memᴰ.tail (Memᴰ.tail (Memᴰ.tail (Memᴰ.tail (Memᴰ.tail (Memᴰ.head refl)))))))),
    has_prefix-Below (codes "/v1/lookup/email/") path h,
    omega arith,
  )
  Serves-HasPattern review_list path h = (
    (codes "/v1/review", review_list),
    in_base (
        Memᴰ.tail (
          Memᴰ.tail (
            Memᴰ.tail
              (Memᴰ.tail (Memᴰ.tail (Memᴰ.tail (Memᴰ.tail (Memᴰ.tail (Memᴰ.head refl))))))))),
    (same_iff path (codes "/v1/review")).1 h,
    omega arith,
  )
  Serves-HasPattern review_decision path h = (
    (codes "/v1/review/", review_decision),
    in_base (
        Memᴰ.tail (
          Memᴰ.tail (
            Memᴰ.tail (
              Memᴰ.tail
                (Memᴰ.tail (Memᴰ.tail (Memᴰ.tail (Memᴰ.tail (Memᴰ.tail (Memᴰ.head refl)))))))))),
    has_prefix-Below (codes "/v1/review/") path h,
    omega arith,
  )
  Serves-HasPattern asset_ingest path (given, h) = (
    (codes "/v1/ingest/assets", asset_ingest),
    in_assets given (Memᴰ.head refl),
    (same_iff path (codes "/v1/ingest/assets")).1 h,
    omega arith,
  )
  Serves-HasPattern asset_lookup path (given, h) = (
    (codes "/v1/lookup/asset/", asset_lookup),
    in_assets given (Memᴰ.tail (Memᴰ.head refl)),
    has_prefix-Below (codes "/v1/lookup/asset/") path h,
    omega arith,
  )
  Serves-HasPattern assets_query path (given, h) = (
    (codes "/v1/assets", assets_query),
    in_assets given (Memᴰ.tail (Memᴰ.tail (Memᴰ.head refl))),
    (same_iff path (codes "/v1/assets")).1 h,
    omega arith,
  )
  Serves-HasPattern asset_change path (given, h, _) = (
    (codes "/v1/assets/", asset_change),
    in_assets given (Memᴰ.tail (Memᴰ.tail (Memᴰ.tail (Memᴰ.head refl)))),
    has_prefix-Below (codes "/v1/assets/") path h,
    omega arith,
  )
  Serves-HasPattern category_types path (given, h) = (
    (codes "/v1/assets/categories/", category_types),
    in_categories given (Memᴰ.head refl),
    has_prefix-Below (codes "/v1/assets/categories/") path h,
    omega arith,
  )
  Serves-HasPattern categories path (given, h) = (
    (codes "/v1/assets/categories", categories),
    in_categories given (Memᴰ.tail (Memᴰ.head refl)),
    (same_iff path (codes "/v1/assets/categories")).1 h,
    omega arith,
  )
