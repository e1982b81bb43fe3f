-- ===== src/Mongo/Laws.antt =====
-- What the documentation of the driver says of the calls: which documents a read returns, and what a
-- write that is acknowledged has changed. A call may fail with any error at any time.
use mathlib.Core.List.{Perm}
use kd_server.Common.{
  no_documents, wrap, String, inl, inr, refl, is_no_documents, Error, Result, arith, ℕ, sym, ◌∙◌,
  Bool, true, false, List, [], ◌∷◌, ◌++◌, map, Memᴰ, ◌≡◌, ◌⊎◌, ok, err, if◌then◌else◌, All, keep,
  length,
}
use kd_server.Mongo.{Action, after, require, on_error, Query, page, Collection}

-- One document that passes the filter was replaced by its update, or none passes it.
pub data Updated {D : Type 0} (p : D → Bool) (f : D → D) (ds : List D) (n : ℕ) (ds' : List D)
    : Type 0 where
  missed : All (λ d. p d ≡ false) ds → n ≡ 0 → ds' ≡ ds → Updated p f ds n ds'
  hit :
      (xs : List D) (d : D) (ys : List D)
      → p d ≡ true
      → n ≡ 1
      → ds ≡ xs ++ d ∷ ys
      → ds' ≡ xs ++ f d ∷ ys
      → Updated p f ds n ds'

-- No two documents agree on the fields of a unique index.
abbrev pub Unique : {D : Type 0} → (D → D → Bool) → List D → Type 0
Unique agree [] = Unit
Unique agree (d ∷ ds) = All (λ e. agree d e ≡ false) ds × Unique agree ds

-- An order by a field: any two documents compare, also through a third.
pub record IsOrder {D : Type 0} (le : D → D → Bool) : Type 0 where
  pub total : (a b : D) → (le a b ≡ true) ⊎ (le b a ≡ true)
  pub trans : (a b c : D) → le a b ≡ true → le b c ≡ true → le a c ≡ true

pub record IsMongo {S D : Type 0} (c : Collection S D) : Type 0 where
  pub find_one_found :
      (p : D → Bool) (s : S) (d : D) → c.find_one p s ≡ ok d → Memᴰ d (c.docs s) × (p d ≡ true)
  pub find_one_missing :
      (p : D → Bool) (s : S) (e : Error)
      → c.find_one p s ≡ err e
      → is_no_documents e ≡ true
      → All (λ d. p d ≡ false) (c.docs s)
  pub find_first_found :
      (q : Query D) (s : S) (d : D)
      → IsOrder q.precedes
      → c.find_first q s ≡ ok d
      → Memᴰ d (c.docs s)
        × (q.matches d ≡ true)
        × All (λ e. q.matches e ≡ true → q.precedes d e ≡ true) (c.docs s)
  pub find_first_missing :
      (q : Query D) (s : S) (e : Error)
      → c.find_first q s ≡ err e
      → is_no_documents e ≡ true
      → All (λ d. q.matches d ≡ false) (c.docs s)
  pub find_page :
      (q : Query D) (s : S) (ds : List D)
      → c.find q s ≡ ok ds
      → (whole : List D) × Perm whole (keep q.matches (c.docs s)) × (ds ≡ page q.skip q.limit whole)
  pub count_exact :
      (p : D → Bool) (s : S) (n : ℕ) → c.count p s ≡ ok n → n ≡ length (keep p (c.docs s))
  pub insert_one_done :
      (d : D) (s : S)
      → (c.insert_one d s).1 ≡ ok tt
      → c.docs (c.insert_one d s).0 ≡ c.docs s ++ d ∷ []
  -- The insertion of one document is atomic, also where it fails.
  pub insert_one_atomic :
      (d : D) (s : S)
      → (c.docs (c.insert_one d s).0 ≡ c.docs s)
        ⊎ (c.docs (c.insert_one d s).0 ≡ c.docs s ++ d ∷ [])
  pub insert_many_done :
      (ds : List D) (s : S)
      → (c.insert_many ds s).1 ≡ ok tt
      → c.docs (c.insert_many ds s).0 ≡ c.docs s ++ ds
  pub update_one_done :
      (p : D → Bool) (f : D → D) (s : S) (n : ℕ)
      → (c.update_one p f s).1 ≡ ok n
      → Updated p f (c.docs s) n (c.docs (c.update_one p f s).0)
  pub update_many_done :
      (p : D → Bool) (f : D → D) (s : S) (n : ℕ)
      → (c.update_many p f s).1 ≡ ok n
      → c.docs (c.update_many p f s).0 ≡ map (λ d. if p d then f d else d) (c.docs s)
  pub upsert_one_done :
      (p : D → Bool) (f : D → D) (d : D) (s : S)
      → (c.upsert_one p f d s).1 ≡ ok tt
      → Updated p f (c.docs s) 1 (c.docs (c.upsert_one p f d s).0)
        ⊎ (All (λ e. p e ≡ false) (c.docs s)
            × (c.docs (c.upsert_one p f d s).0 ≡ c.docs s ++ d ∷ []))
  pub find_one_and_update_done :
      (p : D → Bool) (f : D → D) (s : S) (d' : D)
      → (c.find_one_and_update p f s).1 ≡ ok d'
      → (d : D) × (p d ≡ true)
        × (d' ≡ f d)
        × Memᴰ d (c.docs s)
        × Updated p f (c.docs s) 1 (c.docs (c.find_one_and_update p f s).0)

-- The steps of a `do` block that ended well.
pub after-eq-ok {ℓ κ μ} :
    {S : Type ℓ} {A : Type κ} {B : Type μ} (r : S × Result A) (f : A → Action S B) {s' : S} {b : B}
    → after r f ≡ (s', ok b)
    → (a : A) × (r.1 ≡ ok a) × (f a r.0 ≡ (s', ok b))
after-eq-ok (s, ok a) f h = (a, refl, h)
after-eq-ok (s, err e) f h = cc

pub require-eq-ok {ℓ κ} :
    {S : Type ℓ} {B : Type κ} (b : Bool) (e : Error) (s : S) (k : Action S B) {s' : S} {x : B}
    → after (require b e s) (λ _. k) ≡ (s', ok x)
    → (b ≡ true) × (k s ≡ (s', ok x))
require-eq-ok true e s k h = (refl, h)
require-eq-ok false e s k h = cc

-- Those of one that ended in an error: an earlier step's, or the last one's.
pub after-eq-err {ℓ κ μ} :
    {S : Type ℓ} {A : Type κ} {B : Type μ} (r : S × Result A) (f : A → Action S B) {s' : S}
    {e : Error}
    → after r f ≡ (s', err e)
    → ((r.0 ≡ s') × (r.1 ≡ err e)) ⊎ ((a : A) × (r.1 ≡ ok a) × (f a r.0 ≡ (s', err e)))
after-eq-err (s, ok a) f h = inr (a, refl, h)
after-eq-err (s, err d) f h = inl (cc, cc)

pub require-eq-err {ℓ κ} :
    {S : Type ℓ} {B : Type κ} (b : Bool) (d : Error) (s : S) (k : Action S B) {s' : S} {e : Error}
    → after (require b d s) (λ _. k) ≡ (s', err e)
    → ((b ≡ false) × (s ≡ s') × (d ≡ e)) ⊎ ((b ≡ true) × (k s ≡ (s', err e)))
require-eq-err true d s k h = inr (refl, h)
require-eq-err false d s k h = inl (refl, cc, cc)

pub on_error-eq-ok {ℓ} :
    {A : Type ℓ} (f : Error → Error) (r : Result A) {a : A} → on_error f r ≡ ok a → r ≡ ok a
on_error-eq-ok f (ok a) h = h
on_error-eq-ok f (err e) h = cc

pub on_error-same {ℓ} :
    {A : Type ℓ} (r : Result A) {e : Error} → on_error (λ x. x) r ≡ err e → r ≡ err e
on_error-same (ok a) h = cc
on_error-same (err e) h = h

-- An error that was wrapped is not the driver's own.
pub on_error-wrapped {ℓ κ} :
    {A : Type ℓ} {B : Type κ} (r : Result A) (m : String)
    → on_error (wrap m) r ≡ err no_documents
    → B
on_error-wrapped (ok a) m h = absurd cc
on_error-wrapped (err e) m h = absurd cc

-- Two documents of a collection that agree on the fields of a unique index are one.
Unique-later :
    {D : Type 0} (agree : D → D → Bool) (d e : D) (ds : List D)
    → All (λ x. agree d x ≡ false) ds
    → Memᴰ e ds
    → agree d e ≡ false
Unique-later agree d e [] h m = elim m [ ]
Unique-later agree d e (x ∷ ds) (p, h) (Memᴰ.head q) = rw q p
Unique-later agree d e (x ∷ ds) (p, h) (Memᴰ.tail m) = Unique-later agree d e ds h m

pub Unique-eq :
    {D : Type 0} (agree : D → D → Bool)
    → ((a b : D) → agree a b ≡ agree b a)
    → (ds : List D) (a b : D) → Unique agree ds
    → Memᴰ a ds
    → Memᴰ b ds
    → agree a b ≡ true
    → a ≡ b
Unique-eq agree swap [] a b u m n t = elim m [ ]
Unique-eq agree swap (x ∷ ds) a b (p, h) (Memᴰ.head q) (Memᴰ.head r) t = q ∙ sym r
Unique-eq agree swap (x ∷ ds) a b (p, h) (Memᴰ.head q) (Memᴰ.tail m) t =
    absurd (let no : agree x b ≡ false = Unique-later agree x b ds p m in ground arith)
Unique-eq agree swap (x ∷ ds) a b (p, h) (Memᴰ.tail m) (Memᴰ.head r) t =
    absurd (let no : agree x a ≡ false = Unique-later agree x a ds p m in ground (arith, swap a b))
Unique-eq agree swap (x ∷ ds) a b (p, h) (Memᴰ.tail m) (Memᴰ.tail n) t =
    Unique-eq agree swap ds a b h m n t
