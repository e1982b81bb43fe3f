-- ===== src/Asset/Service/Laws.antt =====
-- What a transfer and a disposal leave in the store.
use kd_server.Common.{
  ℕ, zero, suc, ◌≡◌, refl, sym, ap, ◌∙◌, inl, inr, Bool, true, false, not, ◌&&◌, Option, none, some,
  List, [], ◌∷◌, ◌++◌, Memᴰ, arith, ◌==◌, Bool-cases, Result-cases, All, All-map, All-right,
  All-mem, Result, ok, Error, message, wrap, is_no_documents,
}
use mathlib.Core.Path.{subst, subst₂}
use kd_server.Text.{Text, codes, same, same_iff}
use kd_server.Mongo.{Action, after, ◌>>=◌, ◌>>◌, require, writing, Collection}
use kd_server.Mongo.Laws.{
  IsMongo, Updated, missed, hit, Unique, after-eq-ok, require-eq-ok, on_error-eq-ok,
}
use kd_server.Asset.{Float, Asset, AssetHistory, Register}
use kd_server.Asset.Store.{
  nil_store, or_kept, or_kept_option, or_kept_int, or_kept_json, or_kept_float, set_asset,
  has_number, update_asset, get_asset_by_number, create_asset_history,
}
use kd_server.Format.{ℤ, pos, negsuc}
use kd_server.Tenant.{ObjectId}
use kd_server.Json.{Json}
use kd_server.Time.{Time}
use kd_server.Asset.Service.{
  transfer_asset, dispose_asset, dispose_notes, FloatFormat, event, on_assets, on_history,
  required_asset, ignoring,
}

-- The unique index `assets_number`.
abbrev pub same_number : Asset → Asset → Bool
same_number a b = same a.asset_no b.asset_no

same_swap : (s t : Text) → same s t ≡ same t s
same_swap [] [] = refl
same_swap [] (_ ∷ _) = refl
same_swap (_ ∷ _) [] = refl
same_swap (c ∷ s) (d ∷ t) = ground (arith, same_swap s t)

-- The one document of the tenant with the number was replaced, and the others stay.
pub data Rewritten (tenant asset_no : Text) (a a' : Asset) (ds ds' : List Asset) : Type 0 where
  rewritten :
      (xs ys : List Asset)
      → ds ≡ xs ++ a ∷ ys
      → ds' ≡ xs ++ a' ∷ ys
      → has_number tenant asset_no a ≡ true
      → All (λ e. has_number tenant asset_no e ≡ false) (xs ++ ys)
      → Rewritten tenant asset_no a a' ds ds'

number_apart :
    (tenant n dt dn et en : Text)
    → (same dt tenant && same dn n) ≡ true
    → same dn en ≡ false
    → (same et tenant && same en n) ≡ false
number_apart tenant n dt dn et en here apart = elim (Bool-cases (same en n)) [
  | inl twin ↦
      let d_eq : dn ≡ n = (same_iff dn n).0 (ground arith) in
      let one : same dn en ≡ true = (same_iff dn en).1 (d_eq ∙ sym ((same_iff en n).0 twin)) in
      cc (one, apart)
  | inr differs ↦ ground arith
]

others :
    (tenant asset_no : Text) (xs : List Asset) (d : Asset) (ys : List Asset)
    → has_number tenant asset_no d ≡ true
    → Unique same_number (xs ++ d ∷ ys)
    → All (λ e. has_number tenant asset_no e ≡ false) (xs ++ ys)
others tenant asset_no [] d ys here (apart, _) =
    All-map
      (λ e other.
        number_apart tenant asset_no d.tenant_id d.asset_no e.tenant_id e.asset_no here other)
      ys apart
others tenant asset_no (x ∷ xs) d ys here (apart, unique) =
    let (x_d, _) = All-right (λ e. same_number x e ≡ false) xs (d ∷ ys) apart in
    (
      number_apart tenant asset_no d.tenant_id d.asset_no x.tenant_id x.asset_no here
          (same_swap d.asset_no x.asset_no ∙ x_d),
      others tenant asset_no xs d ys here unique,
    )

kept_text : (s : Text) → or_kept s s ≡ s
kept_text [] = refl
kept_text (c ∷ s) = refl

kept_option {ℓ} : {A : Type ℓ} (o : Option A) → or_kept_option o o ≡ o
kept_option none = refl
kept_option (some a) = refl

kept_int : (n : ℤ) → or_kept_int n n ≡ n
kept_int (pos zero) = refl
kept_int (pos (suc n)) = refl
kept_int (negsuc n) = refl

kept_json : (j : Json) → or_kept_json j j ≡ j
kept_json [] = refl
kept_json (m ∷ ms) = refl

kept_float : (x : Float) → or_kept_float x x ≡ x
kept_float x = ground arith

-- Setting a document to what it was, but for fields that are always written.
set_asset_self :
    (a : Asset) (location status : Text) (now : Time)
    → set_asset (record a { location = location; status = status; updated_at = now }) a
      ≡ record a { location = location; status = status; updated_at = now }
unfolding set_asset
set_asset_self a location status now =
    simp (kept_text, kept_option, kept_int, kept_json, kept_float)

mem_alone :
    (p : Asset → Bool) (a : Asset) (xs : List Asset) (d : Asset) (ys : List Asset)
    → All (λ e. p e ≡ false) (xs ++ ys)
    → p a ≡ true
    → Memᴰ a (xs ++ d ∷ ys)
    → a ≡ d
mem_alone p a [] d ys apart here (Memᴰ.head q) = q
mem_alone p a [] d ys apart here (Memᴰ.tail m) =
    let out : p a ≡ false = All-mem (λ e. p e ≡ false) ys apart m in cc (here, out)
mem_alone p a (x ∷ xs) d ys (out, apart) here (Memᴰ.head q) =
    absurd (let there : p a ≡ false = ap p q ∙ out in cc (here, there))
mem_alone p a (x ∷ xs) d ys (_, apart) here (Memᴰ.tail m) = mem_alone p a xs d ys apart here m

Updated-Rewritten :
    (tenant asset_no : Text) (a a' : Asset) (f : Asset → Asset) (ds ds' : List Asset) (n : ℕ)
    → Unique same_number ds
    → Memᴰ a ds
    → has_number tenant asset_no a ≡ true
    → f a ≡ a'
    → Updated (has_number tenant asset_no) f ds n ds'
    → not (n == 0) ≡ true
    → Rewritten tenant asset_no a a' ds ds'
Updated-Rewritten tenant asset_no a a' f ds ds' n unique mem here becomes (missed _ none_hit _)
      hit_one =
    absurd (ground arith)
Updated-Rewritten tenant asset_no a a' f ds ds' n unique mem here becomes
      (hit xs d ys inside _ before_eq after_eq) _ =
    let apart : All (λ e. has_number tenant asset_no e ≡ false) (xs ++ ys) =
      others tenant asset_no xs d ys inside (subst (Unique same_number) before_eq unique) in
    let one : a ≡ d =
      mem_alone (has_number tenant asset_no) a xs d ys apart here
        (subst (λ l. Memᴰ a l) before_eq mem) in
    rewritten xs ys (before_eq ∙ ap (λ x. xs ++ x ∷ ys) (sym one))
      (after_eq ∙ ap (λ x. xs ++ x ∷ ys) (ap f (sym one) ∙ becomes)) here apart

require-done :
    {S : Type 0}
    → (b : Bool) (e : Error) (s s' : S) → require b e s ≡ (s', ok tt)
    → (b ≡ true) × (s ≡ s')
require-done {S = S} true e s s' h = (refl, ap (λ (r : S × Result (Unit {0})). r.0) h)
require-done false e s s' h = cc

module _ {A : Type 0} (assets : Collection A Asset) (mongo : IsMongo assets)
    (tenant asset_no : Text) (s : A) (unique : Unique same_number (assets.docs s)) where
  -- What `GetAssetByNumber` found, with another place, status or time, replaces the document.
  update-Rewritten :
      (a : Asset) (location status : Text) (now : Time) (s' : A)
      → assets.find_one (has_number tenant asset_no) s ≡ ok a
      → update_asset assets
          (record a { location = location; status = status; updated_at = now })
          now
          s
        ≡ (s', ok tt)
      → Rewritten tenant asset_no a
          (record a { location = location; status = status; updated_at = now })
          (assets.docs s)
          (assets.docs s')
  unfolding update_asset
  update-Rewritten a location status now s' found h =
      let a' : Asset = record a { location = location; status = status; updated_at = now } in
      let (mem, here) = mongo.find_one_found _ s a found in
      let (_, h1) = require-eq-ok assets.configured nil_store s _ h in
      let (n, updated, h2) =
        after-eq-ok
          (writing (wrap "store: update asset")
            (assets.update_one (has_number a.tenant_id a.asset_no) (set_asset a')) s)
          _ h1 in
      let (matched, same_state) =
        require-done (not (n == 0)) (message "store: asset not found") _ s' h2 in
      let same_tenant : a.tenant_id ≡ tenant = (same_iff _ _).0 (ground arith) in
      let same_asset_no : a.asset_no ≡ asset_no = (same_iff _ _).0 (ground arith) in
      let done : Updated (has_number a.tenant_id a.asset_no) (set_asset a') (assets.docs s) n
          (assets.docs (assets.update_one (has_number a.tenant_id a.asset_no) (set_asset a') s).0) =
        mongo.update_one_done _ _ s n (on_error-eq-ok (wrap "store: update asset") _ updated) in
      let done' : Updated (has_number tenant asset_no) (set_asset a') (assets.docs s) n
          (assets.docs s') =
        subst₂ (λ p d. Updated p (set_asset a') (assets.docs s) n d)
          (λ i. has_number (same_tenant i) (same_asset_no i)) (ap assets.docs same_state) done in
      Updated-Rewritten tenant asset_no a a' (set_asset a') (assets.docs s) (assets.docs s') n
        unique mem here (set_asset_self a location status now) done' matched

-- The first two steps of a change: the asset, which the store has, and the rest on the same state.
found_asset :
    {A L H : Type 0}
    → (assets : Collection A Asset) (tenant asset_no : Text)
      (k : Asset → Action (Register A L H) (Unit {0})) (s s' : Register A L H)
    → after
        (on_assets (writing (wrap "get asset") (get_asset_by_number assets tenant asset_no)) s)
        (λ found. required_asset found >>= k)
      ≡ (s', ok tt)
    → (a : Asset) × (assets.find_one (has_number tenant asset_no) s.assets ≡ ok a)
      × (k a s ≡ (s', ok tt))
unfolding get_asset_by_number
found_asset assets tenant asset_no k s s' h = elim (Bool-cases assets.configured) [
  | inl here ↦ elim (Result-cases (assets.find_one (has_number tenant asset_no) s.assets)) [
    | inl (a, found) ↦ (a, found, ground arith)
    | inr (e, failed) ↦ elim (Bool-cases (is_no_documents e)) [
      | inl missing ↦ absurd (ground arith)
      | inr other ↦ absurd (ground arith)
    ]
  ]
  | inr nowhere ↦ absurd (ground arith)
]

module _ {A L H : Type 0} (assets : Collection A Asset) (history : Collection H AssetHistory)
    (mongo : IsMongo assets) (tenant asset_no : Text) (s : Register A L H)
    (unique : Unique same_number (assets.docs s.assets)) where
  -- What a change of an asset leaves: the one document of the tenant with the number is replaced, the
  -- links are as before, and the history is what the insertion of the event left.
  pub data Changed (change : Asset → Asset) (happened : Asset → AssetHistory) (now : Time)
      (id : ObjectId) (s' : Register A L H) : Type 0 where
    changed :
        (a : Asset)
        → Rewritten tenant asset_no a (change a) (assets.docs s.assets) (assets.docs s'.assets)
        → s'.links ≡ s.links
        → s'.history ≡ (create_asset_history history (happened a) now id s.history).0
        → Changed change happened now id s'

  -- The last two steps of a change.
  write_asset :
      (a : Asset) (location status : Text) (happened : AssetHistory) (now : Time) (id : ObjectId)
      (s' : Register A L H)
      → assets.find_one (has_number tenant asset_no) s.assets ≡ ok a
      → (on_assets (
              writing (wrap "update asset") (
                update_asset assets
                  (record a { location = location; status = status; updated_at = now })
                  now))
            >> ignoring (on_history (create_asset_history history happened now id)))
          s
        ≡ (s', ok tt)
      → Rewritten tenant asset_no a
          (record a { location = location; status = status; updated_at = now })
          (assets.docs s.assets)
          (assets.docs s'.assets)
        × (s'.links ≡ s.links)
        × (s'.history ≡ (create_asset_history history happened now id s.history).0)
  write_asset a location status happened now id s' found h =
      let changed_asset : Asset = record a {
        location = location;
        status = status;
        updated_at = now;
      } in
      let step : Register A L H × Result (Unit {0}) =
        on_assets (writing (wrap "update asset") (update_asset assets changed_asset now)) s in
      let (_, updated, rest) =
        after-eq-ok step (λ _. ignoring (on_history (create_asset_history history happened now id)))
          h in
      let good : (update_asset assets changed_asset now s.assets).1 ≡ ok tt =
        on_error-eq-ok (wrap "update asset") _ updated in
      let left : (on_history {A = A} {L = L} (create_asset_history history happened now id)
            step.0).0
          ≡ s' =
        ap (λ (r : Register A L H × Result (Unit {0})). r.0) rest in
      let in_assets : step.0.assets ≡ s'.assets = ap (λ (r : Register A L H). r.assets) left in
      (
        update-Rewritten assets mongo tenant asset_no s.assets unique a location status now
            s'.assets found (λ i. (in_assets i, good i)),
        sym (ap (λ (r : Register A L H). r.links) left),
        sym (ap (λ (r : Register A L H). r.history) left),
      )

  -- Where no two stored assets have one number, a transfer that succeeds replaces the tenant's one asset with the number by the same asset at the new
  -- place and with the time of the change, and leaves all other assets and the links as they were; the
  -- history is what the insertion of an event with the old and the new place left.
  pub transfer_asset-Changed :
      (to_location performed_by notes : Text) (now : Time) (id : ObjectId) (s' : Register A L H)
      → transfer_asset assets history tenant asset_no to_location performed_by notes now id s
        ≡ (s', ok tt)
      → Changed
          (λ a. record a { location = to_location; updated_at = now })
          (λ a. event asset_no tenant (codes "transfer") a.location to_location performed_by notes)
          now
          id
          s'
  unfolding transfer_asset
  transfer_asset-Changed to_location performed_by notes now id s' h =
      let (a, found, h1) = found_asset assets tenant asset_no _ s s' h in
      let (one, same_links, events) = write_asset a to_location a.status _ now id s' found h1 in
      changed a one same_links events

  -- Where no two stored assets have one number, a disposal that succeeds sets the status of the tenant's one asset with the number to "disposed", with
  -- the time of the change, and leaves all other assets and the links as they were; the history is what
  -- the insertion of an event with the notes of the disposal left.
  pub dispose_asset-Changed :
      ⦃f : FloatFormat⦄
      → (reason performed_by : Text) (sale_value : Float) (notes : Text) (now : Time)
        (id : ObjectId) (s' : Register A L H)
      → dispose_asset assets history tenant asset_no reason performed_by sale_value notes now id s
        ≡ (s', ok tt)
      → Changed
          (λ a. record a { status = codes "disposed"; updated_at = now })
          (λ a.
            event asset_no tenant
              (codes "dispose")
              []
              []
              performed_by
              (dispose_notes reason sale_value notes))
          now
          id
          s'
  unfolding dispose_asset
  dispose_asset-Changed reason performed_by sale_value notes now id s' h =
      let (a, found, h1) = found_asset assets tenant asset_no _ s s' h in
      let (one, same_links, events) =
        write_asset a a.location (codes "disposed") _ now id s' found h1 in
      changed a one same_links events
