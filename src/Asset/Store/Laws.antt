-- ===== src/Asset/Store/Laws.antt =====
-- What a query of the assets returns.
use kd_server.Common.{
  Bool, All, ◌⊎◌, ◌↔◌, refl, false, Option, none, some, [], ◌∷◌, ℕ, ◌≤◌, ◌≡◌, sym, ap, ◌∙◌, inl,
  inr, true, not, List, arith, Bool-cases, Result-cases, length, all, keep, ok,
}
use mathlib.Core.List.{Perm}
use kd_server.Mongo.{page, Collection}
use kd_server.Text.{Text, same_iff}
use kd_server.Time.{Time, before}
use kd_server.Asset.Store.{given, since, until, asset_matches, query_assets}
use kd_server.Mongo.Laws.{IsMongo}
use kd_server.Asset.{Asset, AssetQueryFilter}
use mathlib.Core.Path.{subst}
use kd_server.Mongo.Pages.{find-page}

-- An asset that a filter asks for: one of its tenant, with the office, the category, the type and the
-- status that it names, acquired not before and not behind the times that it names.
pub record Wanted (f : AssetQueryFilter) (a : Asset) : Type 0 where
  pub tenant : a.tenant_id ≡ f.tenant_id
  pub office : (f.office ≡ []) ⊎ (a.office ≡ f.office)
  pub category : (f.category_no ≡ []) ⊎ (a.category_no ≡ f.category_no)
  pub kind : (f.type_number ≡ []) ⊎ (a.type_number ≡ f.type_number)
  pub status : (f.status ≡ []) ⊎ (a.status ≡ f.status)
  pub not_before :
      (t : Time) → f.acquisition_date_from ≡ some t → before a.acquisition_date t ≡ false
  pub not_after : (t : Time) → f.acquisition_date_to ≡ some t → before t a.acquisition_date ≡ false

given_iff : (w v : Text) → (given w v ≡ true) ↔ ((w ≡ []) ⊎ (v ≡ w))
given_iff [] v = (λ h. inl refl, λ h. refl)
given_iff (c ∷ w) v = (
  λ h. inr ((same_iff v (c ∷ w)).0 h),
  λ h. elim h [ inl e ↦ cc | inr e ↦ (same_iff v (c ∷ w)).1 e ],
)

since_iff :
    (o : Option Time) (t : Time)
    → (since o t ≡ true) ↔ ((u : Time) → o ≡ some u → before t u ≡ false)
since_iff none t = (λ h u e. cc, λ h. refl)
since_iff (some u) t = (
  λ h v e. let same_time : u ≡ v = cc e in rw (sym same_time) (ground arith),
  λ h. rw (h u refl) refl,
)

until_iff :
    (o : Option Time) (t : Time)
    → (until o t ≡ true) ↔ ((u : Time) → o ≡ some u → before u t ≡ false)
until_iff none t = (λ h u e. cc, λ h. refl)
until_iff (some u) t = (
  λ h v e. let same_time : u ≡ v = cc e in rw (sym same_time) (ground arith),
  λ h. rw (h u refl) refl,
)

asset_matches-Wanted : (f : AssetQueryFilter) (a : Asset) → (asset_matches f a ≡ true) ↔ Wanted f a
unfolding asset_matches
asset_matches-Wanted f a = (
  λ h. record {
    tenant = (same_iff _ _).0 (ground arith);
    office = (given_iff f.office a.office).0 (ground arith);
    category = (given_iff f.category_no a.category_no).0 (ground arith);
    kind = (given_iff f.type_number a.type_number).0 (ground arith);
    status = (given_iff f.status a.status).0 (ground arith);
    not_before = (since_iff f.acquisition_date_from a.acquisition_date).0 (ground arith);
    not_after = (until_iff f.acquisition_date_to a.acquisition_date).0 (ground arith);
  },
  λ w.
      rw
        (
          (same_iff _ _).1 w.tenant,
          (given_iff f.office a.office).1 w.office,
          (given_iff f.category_no a.category_no).1 w.category,
          (given_iff f.type_number a.type_number).1 w.kind,
          (given_iff f.status a.status).1 w.status,
          (since_iff f.acquisition_date_from a.acquisition_date).1 w.not_before,
          (until_iff f.acquisition_date_to a.acquisition_date).1 w.not_after,
        )
        refl,
)

-- What the driver is asked for.
pub query_assets-matching :
    {A : Type 0}
    → (assets : Collection A Asset) → IsMongo assets
    → (filter : AssetQueryFilter) (s s' : A) (found : List Asset) (total : ℕ)
    → query_assets assets filter s ≡ (s', ok (found, total))
    → (all (asset_matches filter) found ≡ true)
      × (1 ≤ filter.limit → length found ≤ filter.limit)
      × (total ≡ length (keep (asset_matches filter) (assets.docs s)))
      × (s ≡ s')
      × ((whole : List Asset) × Perm whole (keep (asset_matches filter) (assets.docs s))
          × (found ≡ page filter.offset filter.limit whole))
unfolding query_assets
query_assets-matching assets mongo filter s s' found total h = elim (Bool-cases assets.configured) [
  | inl on ↦ elim (Result-cases (assets.count (asset_matches filter) s)) [
    | inl (n, counted) ↦
        elim (Result-cases (
          assets.find
            (record {
              matches = asset_matches filter;
              precedes = λ a b. not (before a.created_at b.created_at);
              skip = filter.offset;
              limit = filter.limit;
            })
            s)) [
              | inl (ds, listed) ↦
                  let found_eq : ds ≡ found = ground arith in
                  let total_eq : n ≡ total = ground arith in
                  let same_state : s ≡ s' = ground arith in
                  let (whole, perm, paged) = mongo.find_page _ s ds listed in
                  let (kept, bounded) = find-page assets mongo _ s ds listed in
                  (
                    ap (all (asset_matches filter)) (sym found_eq) ∙ kept,
                    λ some_limit.
                        subst (λ l. length l ≤ filter.limit) found_eq (bounded some_limit),
                    sym total_eq ∙ mongo.count_exact _ s n counted,
                    same_state,
                    (whole, perm, sym found_eq ∙ paged),
                  )
              | inr (e, failed) ↦ absurd (ground arith)
            ]
    | inr (e, failed) ↦ absurd (ground arith)
  ]
  | inr off ↦ absurd (ground arith)
]

all-Wanted :
    (filter : AssetQueryFilter) (ds : List Asset)
    → all (asset_matches filter) ds ≡ true
    → All (Wanted filter) ds
all-Wanted filter [] h = tt
all-Wanted filter (d ∷ ds) h =
    ((asset_matches-Wanted filter d).0 (ground arith), all-Wanted filter ds (ground arith))

-- A query that succeeds changes nothing. Its total is the number of the stored assets that the filter asks
-- for, and it returns the page of them, in some order, that the offset and the limit give: only assets that
-- the filter asks for, and at most the limit if there is one.
pub query_assets-page :
    {A : Type 0}
    → (assets : Collection A Asset) → IsMongo assets
    → (filter : AssetQueryFilter) (s s' : A) (found : List Asset) (total : ℕ)
    → query_assets assets filter s ≡ (s', ok (found, total))
    → (p : Asset → Bool) × ((a : Asset) → (p a ≡ true) ↔ Wanted filter a)
      × (total ≡ length (keep p (assets.docs s)))
      × ((whole : List Asset) × Perm whole (keep p (assets.docs s))
          × (found ≡ page filter.offset filter.limit whole))
      × All (Wanted filter) found
      × (1 ≤ filter.limit → length found ≤ filter.limit)
      × (s ≡ s')
query_assets-page assets mongo filter s s' found total h =
    let (fits, short, counted, same_state, paged) =
      query_assets-matching assets mongo filter s s' found total h in
    (
      asset_matches filter,
      asset_matches-Wanted filter,
      counted,
      paged,
      all-Wanted filter found fits,
      short,
      same_state,
    )
