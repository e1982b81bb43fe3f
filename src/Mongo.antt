-- ===== src/Mongo.antt =====
-- The MongoDB driver, as a parameter. A `Collection` is the driver's handle of one collection
-- (`s.db.Collection(…)`), over the state `S` of that collection in the deployment. What the driver's
-- documentation says of the calls is `IsMongo` in Mongo/Laws.antt; Mongo/Memory.antt meets it.
pub mod Laws
pub mod Kept
pub mod Pages
pub mod Memory
use kd_server.Common.{
  ℕ, zero, suc, Bool, true, false, List, [], Result, ok, err, Error, message, if◌then◌else◌, take,
  drop,
}

-- A call that may change the state, and that ends in Go's `(T, error)`.
abbrev pub Action {ℓ κ} : Type ℓ → Type κ → Type (ℓ ⊔ κ)
Action S A = S → S × Result A

abbrev pub after {ℓ κ μ} :
    {S : Type ℓ} {A : Type κ} {B : Type μ} → S × Result A → (A → Action S B) → S × Result B
after (s, ok a) f = f a s
after (s, err e) f = (s, err e)

infixl 5 ◌>>=◌ ◌>>◌
abbrev pub ◌>>=◌ {ℓ κ μ} :
    {S : Type ℓ} {A : Type κ} {B : Type μ} → Action S A → (A → Action S B) → Action S B
◌>>=◌ m f s = after (m s) f

abbrev pub ◌>>◌ {ℓ κ} : {S : Type ℓ} {B : Type κ} → Action S (Unit {0}) → Action S B → Action S B
◌>>◌ m k s = after (m s) (λ _. k)

abbrev pub pure {ℓ κ} : {S : Type ℓ} {A : Type κ} → A → Action S A
pure a s = (s, ok a)

abbrev pub raise {ℓ κ} : {S : Type ℓ} {A : Type κ} → Error → Action S A
raise e s = (s, err e)

-- `if !test { return err }`
abbrev pub require {ℓ} : {S : Type ℓ} → Bool → Error → Action S (Unit {0})
require true e s = (s, ok tt)
require false e s = (s, err e)

abbrev pub on_error {ℓ} : {A : Type ℓ} → (Error → Error) → Result A → Result A
on_error f (ok a) = ok a
on_error f (err e) = err (f e)

-- `if err != nil { return f(err) }` behind a call that only reads, and behind one that writes.
abbrev pub reading {ℓ κ} : {S : Type ℓ} {A : Type κ} → (Error → Error) → (S → Result A) → Action S A
reading f m s = (s, on_error f (m s))

abbrev pub writing {ℓ κ} : {S : Type ℓ} {A : Type κ} → (Error → Error) → Action S A → Action S A
writing f m s = let (s', r) = m s in (s', on_error f r)

-- A filter with the options of `Find`: an order, and a page. A limit of 0 is no limit.
pub record Query (D : Type 0) : Type 0 where
  pub matches : D → Bool
  pub precedes : D → D → Bool
  pub skip : ℕ
  pub limit : ℕ

abbrev pub page {ℓ} : {A : Type ℓ} → ℕ → ℕ → List A → List A
page skip zero ds = drop skip ds
page skip (suc limit) ds = take (suc limit) (drop skip ds)

-- `configured` is `s != nil && s.db != nil`. The number that an update returns is `MatchedCount`.
pub record Collection (S : Type 0) (D : Type 0) : Type 0 where
  pub configured : Bool
  pub docs : S → List D
  pub find_one : (D → Bool) → S → Result D
  pub find_first : Query D → S → Result D
  pub find : Query D → S → Result (List D)
  pub count : (D → Bool) → S → Result ℕ
  pub insert_one : D → Action S (Unit {0})
  pub insert_many : List D → Action S (Unit {0})
  pub update_one : (D → Bool) → (D → D) → Action S ℕ
  pub update_many : (D → Bool) → (D → D) → Action S ℕ
  pub upsert_one : (D → Bool) → (D → D) → D → Action S (Unit {0})
  pub find_one_and_update : (D → Bool) → (D → D) → Action S D
