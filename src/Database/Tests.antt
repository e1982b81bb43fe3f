-- ===== src/Database/Tests.antt =====
-- A driver in memory that the driver's documentation holds of, and runs on it.
use mathlib.Core.List.Permᴰ
use mathlib.Core.Path.{subst}
use kd_server.Common.{
  ℕ, suc, String, ◌≡◌, refl, ap, ◌⊎◌, inl, inr, Bool, true, false, ◌&&◌, some, List, [], ◌∷◌, ◌++◌,
  map, Memᴰ, arith, ltb, ◌==◌, ==_iff, if◌then◌else◌, Bool-cases, length, All, All-map, Result, ok,
  err, wrap, fault,
}
use kd_server.Text.{codes, is_space, trim_space}
use kd_server.Format.{pos, negsuc}
use kd_server.Database.{Driver, Config, MongoStore, connect, ensure_each, ensure_indexes}
use kd_server.Database.Laws.{IsDriver, Connected, connect-Connected}
use kd_server.Database.Ensured.{Ensured, ensure_indexes-Ensured}
use kd_server.Database.Indexes.{IndexModel, default_index_specs}

record Deployment : Type 0 where
  next : ℕ
  live : ℕ → Bool
  entries : List (String × IndexModel)

abbrev answers : Bool → Deployment → Deployment × Result (Unit {0})
answers true s = (s, ok tt)
answers false s = (s, err (fault 1))

abbrev at : String → List IndexModel → List (String × IndexModel)
at collection [] = []
at collection (m ∷ models) = (collection, m) ∷ at collection models

abbrev is_live : Deployment → ℕ → Bool
is_live s c = ltb c s.next && s.live c

abbrev with_next : Deployment → Deployment
with_next s = record s { next = suc s.next; live = λ x. if x == s.next then true else s.live x }

abbrev without : ℕ → Deployment → Deployment
without c s = record s { live = λ x. if x == c then false else s.live x }

-- A deployment that answers pings or does not.
abbrev driver : Bool → Driver Deployment ℕ
driver up = record {
  is_open = is_live;
  connect_uri = λ uri s. (with_next s, ok s.next);
  ping = λ c s. answers up s;
  disconnect = λ c s. (without c s, ok tt);
  indexes = λ db s. s.entries;
  create_many = λ c db collection models s. (
    record s { entries = at collection models ++ s.entries },
    ok (map (λ (m : IndexModel). m.name) models),
  );
}

abbrev Fresh : Deployment → Deployment → ℕ → Type 0
Fresh s s' c =
    (is_live s c ≡ false)
    × (is_live s' c ≡ true)
    × ((x : ℕ) → (x ≡ c) ⊎ (is_live s' x ≡ is_live s x))

with_next-Fresh : (s : Deployment) → Fresh s (with_next s) s.next
with_next-Fresh s = (
  ground arith,
  ground arith,
  λ x. elim (Bool-cases (x == s.next)) [
    | inl one ↦ inl ((==_iff _ _).0 one)
    | inr other ↦
        let near : ltb x (suc s.next) ≡ ltb x s.next = ground arith in inr (rw (other, near))
  ],
)

without-other : (c : ℕ) (s : Deployment) (x : ℕ) → (x ≡ c) ⊎ (is_live (without c s) x ≡ is_live s x)
without-other c s x = elim (Bool-cases (x == c)) [
  | inl one ↦ inl ((==_iff _ _).0 one)
  | inr other ↦ inr (rw other)
]

at-All :
    (collection : String) (models : List IndexModel) (rest : List (String × IndexModel))
    → All (λ m. Memᴰ (collection, m) (at collection models ++ rest)) models
at-All collection [] rest = tt
at-All collection (m ∷ models) rest =
    (Memᴰ.head refl, All-map (λ n h. Memᴰ.tail h) models (at-All collection models rest))

behind :
    (xs ys : List (String × IndexModel)) (x : String × IndexModel) → Memᴰ x ys → Memᴰ x (xs ++ ys)
behind [] ys x h = h
behind (y ∷ xs) ys x h = Memᴰ.tail (behind xs ys x h)

answers-live :
    (up : Bool) (c : ℕ) (s : Deployment) (x : ℕ) → is_live (answers up s).0 x ≡ is_live s x
answers-live true c s x = refl
answers-live false c s x = refl

driver-IsDriver : (up : Bool) → IsDriver (driver up)
driver-IsDriver up = record {
  connect_done = λ uri s s' c e.
      let one : s.next ≡ c = cc e in
      subst (Fresh s s') one (
        subst (λ t. Fresh s t s.next) (ap (λ (y : Deployment × Result ℕ). y.0) e)
          (with_next-Fresh s));
  connect_failed = λ uri s s' failure e x. cc;
  ping_keeps = answers-live up;
  disconnect_done = λ c s. (ground arith, without-other c s);
  create_many_done = λ c db collection models s s' names e.
      subst (λ (t : Deployment). All (λ m. Memᴰ (collection, m) t.entries) models)
        (ap (λ (y : Deployment × Result (List String)). y.0) e)
        (at-All collection models s.entries);
  create_many_keeps = λ c db collection models s x h. behind (at collection models) s.entries x h;
}

abbrev empty_deployment : Deployment
empty_deployment = record { next = 0; live = λ x. false; entries = [] }

abbrev config : Config
config = record { uri = codes " "; database = codes "kdserver"; timeout = negsuc 4 }

abbrev store : MongoStore ℕ
store = record { client = 0; db = codes "kdserver"; timeout = pos 10000000000 }

runs :
    ((connect (driver true) config empty_deployment).1 ≡ ok store)
    × ((connect (driver false) config empty_deployment).1 ≡ err (wrap "store: ping" (fault 1)))
    × (is_live (connect (driver true) config empty_deployment).0 0 ≡ true)
    × (is_live (connect (driver false) config empty_deployment).0 0 ≡ false)
    × (length
          (ensure_indexes (driver true) default_index_specs (some store) empty_deployment).0.entries
        ≡ 28)
unfolding connect ensure_indexes ensure_each is_space trim_space
runs = (refl, refl, refl, refl, refl)

connect-Connected_example :
    Connected
      (driver false)
      config
      empty_deployment
      (connect (driver false) config empty_deployment)
connect-Connected_example =
    connect-Connected (driver false) (driver-IsDriver false) config empty_deployment

ensure_indexes-Ensured_example :
    Ensured
      (driver true)
      store
      default_index_specs
      default_index_specs
      (ensure_indexes (driver true) default_index_specs (some store) empty_deployment)
    × ((x : String × IndexModel)
        → Memᴰ x []
        → Memᴰ x
            (ensure_indexes
              (driver true)
              default_index_specs
              (some store)
              empty_deployment).0.entries)
ensure_indexes-Ensured_example =
    ensure_indexes-Ensured (driver true) store (driver-IsDriver true) default_index_specs
      empty_deployment (Permᴰ.refl default_index_specs)
