-- ===== src/Admin/Registry.antt =====
-- The tenants as a map from slugs to names, which the collection of tenants implements.
use kd_server.Common.{
  ◌≡◌, refl, inl, inr, Bool, true, false, Option, none, some, List, [], ◌∷◌, ◌++◌, if◌then◌else◌,
  Bool-cases, Option-cases, All, All-right,
}
use kd_server.Text.{Text, same, is_blank, trim_space, Casing, to_upper, same_iff}
use kd_server.Mongo.Laws.{Unique}
use kd_server.Tenant.{Tenant}
use kd_server.Tenant.Slug.{normalize_slug}
use mathlib.Core.Path.{subst}

abbrev pub Names : Type 0
Names = Text → Option Text

-- What the collection stands for.
unfoldable pub name_of : List Tenant → Names
name_of [] k = none
name_of (t ∷ ts) k = let rest = name_of ts k in if same t.slug k then some t.name else rest

abbrev pub put_name : Text → Text → Names → Names
put_name slug name m k = if same slug k then some name else m k

abbrev pub same_slug : Tenant → Tenant → Bool
same_slug s t = same s.slug t.slug

-- The two commands that change the tenants.
pub data Command : Type 0 where
  create rename : (slug name : Text) → Command

-- What a command does to the map: a new slug, or a new name for a slug that is there.
pub data Step ⦃u : Casing⦄ : Command → Names → Names → Type 0 where
  created :
      (slug name : Text) (m m' : Names)
      → m (normalize_slug slug) ≡ none
      → ((k : Text)
          → m' k
            ≡ put_name
                (normalize_slug slug)
                (if is_blank name then to_upper (normalize_slug slug) else trim_space name)
                m
                k)
      → Step (create slug name) m m'
  renamed :
      (slug name old : Text) (m m' : Names)
      → m (normalize_slug slug) ≡ some old
      → ((k : Text) → m' k ≡ put_name (normalize_slug slug) (trim_space name) m k)
      → Step (rename slug name) m m'

abbrev or_else : Option Text → Option Text → Option Text
or_else none o = o
or_else (some a) o = some a

name_of-append :
    (xs ys : List Tenant) (k : Text) → name_of (xs ++ ys) k ≡ or_else (name_of xs k) (name_of ys k)
unfolding name_of
name_of-append [] ys k = refl
name_of-append (x ∷ xs) ys k = elim (Bool-cases (same x.slug k)) [
  | inl y ↦ simp (y)
  | inr n ↦ simp (n, name_of-append xs ys k)
]

-- In front of a tenant, no other has its slug.
pub Unique-front :
    (xs : List Tenant) (d : Tenant) (ys : List Tenant)
    → Unique same_slug (xs ++ d ∷ ys)
    → All (λ x. same_slug x d ≡ false) xs
Unique-front [] d ys h = tt
Unique-front (x ∷ xs) d ys (p, h) =
    ((All-right (λ e. same_slug x e ≡ false) xs (d ∷ ys) p).0, Unique-front xs d ys h)

name_of-none :
    (xs : List Tenant) (k : Text) → All (λ x. same x.slug k ≡ false) xs → name_of xs k ≡ none
unfolding name_of
name_of-none [] k h = refl
name_of-none (x ∷ xs) k (p, h) = rw p (name_of-none xs k h)

-- One tenant behind others of other slugs, and its new name.
module _ (slug name : Text) (xs : List Tenant) (d : Tenant) (ys : List Tenant) where
  pub name_of-added :
      All (λ x. same x.slug d.slug ≡ false) xs
      → same d.slug slug ≡ true
      → (name_of xs slug ≡ none)
        × ((k : Text) → name_of (xs ++ d ∷ []) k ≡ put_name slug d.name (name_of xs) k)
  unfolding name_of
  name_of-added front fits =
      let q : d.slug ≡ slug = (same_iff d.slug slug).0 fits in
      let fresh : name_of xs slug ≡ none =
        name_of-none xs slug (subst (λ k. All (λ x. same x.slug k ≡ false) xs) q front) in
      (
        fresh,
        λ k. elim (Bool-cases (same slug k)) [
          | inl y ↦
              let r : slug ≡ k = (same_iff slug k).0 y in
              let none_there : name_of xs k ≡ none = subst (λ j. name_of xs j ≡ none) r fresh in
              let here : same d.slug k ≡ true = rw q y in
              rw (name_of-append xs (d ∷ []) k, none_there, y, here) refl
          | inr n ↦
              let here : same d.slug k ≡ false = rw q n in
              rw (name_of-append xs (d ∷ []) k, n) (rest k here)
        ],
      )
    where
      rest :
          (k : Text)
          → same d.slug k ≡ false
          → or_else (name_of xs k) (name_of (d ∷ []) k) ≡ name_of xs k
      rest k here = elim (Option-cases (name_of xs k)) [
        | inl gone ↦ simp (gone, here)
        | inr (a, there) ↦ simp (there)
      ]

  pub name_of-renamed :
      All (λ x. same x.slug d.slug ≡ false) xs
      → same d.slug slug ≡ true
      → (new : Tenant) → new.slug ≡ d.slug
      → new.name ≡ name
      → (name_of (xs ++ d ∷ ys) slug ≡ some d.name)
        × ((k : Text) → name_of (xs ++ new ∷ ys) k ≡ put_name slug name (name_of (xs ++ d ∷ ys)) k)
  unfolding name_of
  name_of-renamed front fits new kept given_ =
      let q : d.slug ≡ slug = (same_iff d.slug slug).0 fits in
      let fresh : name_of xs slug ≡ none =
        name_of-none xs slug (subst (λ k. All (λ x. same x.slug k ≡ false) xs) q front) in
      (
        rw (name_of-append xs (d ∷ ys) slug, fresh, fits) refl,
        λ k. elim (Bool-cases (same slug k)) [
          | inl y ↦
              let r : slug ≡ k = (same_iff slug k).0 y in
              let none_there : name_of xs k ≡ none = subst (λ j. name_of xs j ≡ none) r fresh in
              let here : same new.slug k ≡ true = rw (kept, q) y in
              rw (name_of-append xs (new ∷ ys) k, none_there, y, here, given_) refl
          | inr n ↦
              let here : same new.slug k ≡ false = rw (kept, q) n in
              let there : same d.slug k ≡ false = rw q n in
              rw (name_of-append xs (new ∷ ys) k, name_of-append xs (d ∷ ys) k, n, here, there) refl
        ],
      )
