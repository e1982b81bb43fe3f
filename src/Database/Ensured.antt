-- ===== src/Database/Ensured.antt =====
-- How `EnsureIndexes` of internal/store/mongo.go ends, in whatever order it ranges over the map.
use Prim.Native.String.{◌++◌ as ◌+++◌}
use mathlib.Core.Path.{subst}
use mathlib.Core.List.{Permᴰ}
use kd_server.Common.{
  String, ◌≡◌, refl, ap, some, List, [], ◌∷◌, ◌++◌, Memᴰ, All, All-map, Result, ok, err, Error,
  wrap,
}
use kd_server.Mongo.{after, writing}
use kd_server.Database.{Driver, MongoStore, ensure_each, ensure_indexes}
use kd_server.Database.Laws.{IsDriver}
use kd_server.Database.Indexes.{IndexModel, Spec, default_index_specs}

module _ {ℓ κ} {A : Type ℓ} (P : A → Type κ) where
  All-Permᴰ : {xs ys : List A} → Permᴰ xs ys → All P xs → All P ys
  All-Permᴰ Permᴰ.nil h = h
  All-Permᴰ (Permᴰ.cons q m) (p, h) = (subst P q p, All-Permᴰ m h)
  All-Permᴰ (Permᴰ.swap q r) (p, (p', h)) = (subst P r p', (subst P q p, h))
  All-Permᴰ (Permᴰ.trans m n) h = All-Permᴰ n (All-Permᴰ m h)

module _ {S C : Type 0} (d : Driver S C) (store : MongoStore C) where
  -- Every model of the collection is an index of it.
  abbrev pub Present : S → Spec → Type 0
  Present s (collection, models) = All (λ m. Memᴰ (collection, m) (d.indexes store.db s)) models

  abbrev Kept : S → S → Type 0
  Kept s t =
      (x : String × IndexModel) → Memᴰ x (d.indexes store.db s) → Memᴰ x (d.indexes store.db t)

  -- All collections were gone through, those of `whole`; or `CreateMany` failed at one of `specs`, behind
  -- those before it.
  pub data Ensured (whole specs : List Spec) (out : S × Result (Unit {0})) : Type 0 where
    completed : out.1 ≡ ok tt → All (Present out.0) whole → Ensured whole specs out
    stopped :
        (done : List Spec) (collection : String) (models : List IndexModel) (rest : List Spec)
        (before : S) (e : Error)
        → specs ≡ done ++ (collection, models) ∷ rest
        → (d.create_many store.client store.db collection models before).1 ≡ err e
        → out.1 ≡ err (wrap ("store: ensure indexes for " +++ collection) e)
        → All (Present out.0) done
        → Ensured whole specs out

  Present-Kept : (s t : S) (spec : Spec) → Kept s t → Present s spec → Present t spec
  Present-Kept s t (collection, models) kept h = All-map (λ m. kept (collection, m)) models h

  -- The loop's step at a collection, by what `CreateMany` answered.
  abbrev step : String → List Spec → S × Result (List String) → S × Result (Unit {0})
  step c specs r =
      after (writing (wrap ("store: ensure indexes for " +++ c)) (λ (s : S). r) r.0)
        (λ _ s'. ensure_each d store specs s')

  module _ (law : IsDriver d) where
    created_Kept :
        (c : String) (models : List IndexModel) (s : S) (r : S × Result (List String))
        → d.create_many store.client store.db c models s ≡ r
        → Kept s r.0
    created_Kept c models s r e = λ x h.
        subst (λ (y : S × Result (List String)). Memᴰ x (d.indexes store.db y.0)) e
          (law.create_many_keeps store.client store.db c models s x h)

    step-Kept :
        (c : String) (specs : List Spec) (r : S × Result (List String))
        → ((t : S) → Kept t (ensure_each d store specs t).0)
        → Kept r.0 (step c specs r).0
    step-Kept c specs (t, ok names) later = later t
    step-Kept c specs (t, err e) later = λ x h. h

    ensure_each-Kept : (specs : List Spec) (s : S) → Kept s (ensure_each d store specs s).0
    unfolding ensure_each
    ensure_each-Kept [] s = λ x h. h
    ensure_each-Kept ((c, []) ∷ specs) s = ensure_each-Kept specs s
    ensure_each-Kept ((c, m ∷ models) ∷ specs) s =
        let r = d.create_many store.client store.db c (m ∷ models) s in
        λ x h.
          step-Kept c specs r (ensure_each-Kept specs) x (created_Kept c (m ∷ models) s r refl x h)

    prepend :
        (spec : Spec) (specs : List Spec) (out : S × Result (Unit {0}))
        → Present out.0 spec
        → Ensured specs specs out
        → Ensured (spec ∷ specs) (spec ∷ specs) out
    prepend spec specs out here (completed good all) = completed good (here, all)
    prepend spec specs out here (stopped done c models rest before e split failed result all) =
        stopped (spec ∷ done) c models rest before e (λ i. spec ∷ split i) failed result (here, all)

    step-Ensured :
        (c : String) (models : List IndexModel) (specs : List Spec) (s : S)
        (r : S × Result (List String))
        → d.create_many store.client store.db c models s ≡ r
        → ((t : S) → Ensured specs specs (ensure_each d store specs t))
        → Ensured ((c, models) ∷ specs) ((c, models) ∷ specs) (step c specs r)
    step-Ensured c models specs s (t, ok names) e later =
        prepend (c, models) specs (ensure_each d store specs t)
          (Present-Kept t _ (c, models) (ensure_each-Kept specs t)
            (law.create_many_done store.client store.db c models s t names e))
          (later t)
    step-Ensured c models specs s (t, err failure) e later =
        stopped [] c models specs s failure refl (ap (λ (y : S × Result (List String)). y.1) e) refl
          tt

    ensure_each-Ensured :
        (specs : List Spec) (s : S) → Ensured specs specs (ensure_each d store specs s)
    unfolding ensure_each
    ensure_each-Ensured [] s = completed refl tt
    ensure_each-Ensured ((c, []) ∷ specs) s =
        prepend (c, []) specs (ensure_each d store specs s) tt (ensure_each-Ensured specs s)
    ensure_each-Ensured ((c, m ∷ models) ∷ specs) s =
        step-Ensured c (m ∷ models) specs s (d.create_many store.client store.db c (m ∷ models) s)
          refl (ensure_each-Ensured specs)

    reordered :
        {specs whole : List Spec} {out : S × Result (Unit {0})}
        → Permᴰ specs whole
        → Ensured specs specs out
        → Ensured whole specs out
    reordered {out = out} order (completed good all) =
        completed good (All-Permᴰ (Present out.0) order all)
    reordered order (stopped done c models rest before e split failed result all) =
        stopped done c models rest before e split failed result all

    -- As the driver's documentation has it, and in whatever order the map of the indexes is ranged over:
    -- `EnsureIndexes` of a store that is not nil either succeeds, and every index of
    -- `defaultIndexSpecs`, with its fields and its uniqueness, is an index of its collection; or
    -- `CreateMany` failed for a collection, the error is that one with the collection's name in front,
    -- and the indexes of all collections before it in the order are there. No index that was there is lost.
    pub ensure_indexes-Ensured :
        (specs : List Spec) (s : S)
        → Permᴰ specs default_index_specs
        → Ensured default_index_specs specs (ensure_indexes d specs (some store) s)
          × ((x : String × IndexModel)
              → Memᴰ x (d.indexes store.db s)
              → Memᴰ x (d.indexes store.db (ensure_indexes d specs (some store) s).0))
    unfolding ensure_indexes
    ensure_indexes-Ensured specs s order =
        (reordered order (ensure_each-Ensured specs s), ensure_each-Kept specs s)
