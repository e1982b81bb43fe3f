-- ===== src/Admin/Refines.antt =====
-- The administration of tenants implements the map from slugs to names.
use kd_server.Common.{
  ◌≡◌, refl, sym, ap, false, not, ◌||◌, some, List, [], ◌∷◌, ◌++◌, arith, if◌then◌else◌, All,
  Result, ok, message,
}
use kd_server.Text.{Text, same, is_empty, is_blank, trim_space, Casing, to_upper, same_refl}
use kd_server.Mongo.{Action, Collection}
use kd_server.Mongo.Laws.{
  IsMongo, Updated, missed, hit, Unique, after-eq-ok, require-eq-ok, on_error-eq-ok,
}
use kd_server.Time.{Time}
use kd_server.Tenant.{Tenant, ObjectId, not_configured, create_tenant, update_tenant_name}
use kd_server.Tenant.Slug.{normalize_slug}
use kd_server.Admin.Registry.{
  name_of, put_name, same_slug, Command, create, rename, Step, created, renamed, Unique-front,
  name_of-added, name_of-renamed,
}
use mathlib.Core.Path.{subst}

-- A tenant behind an update of its name.
Updated-named :
    (slug name : Text) (now : Time) (ds ds' : List Tenant)
    → Unique same_slug ds'
    → Updated (λ t. same t.slug slug) (λ t. record t { name = name; updated_at = now }) ds 1 ds'
    → (old : Text) × (name_of ds slug ≡ some old)
      × ((k : Text) → name_of ds' k ≡ put_name slug name (name_of ds) k)
Updated-named slug name now ds ds' unique (missed _ none_hit _) = absurd (omega (arith, none_hit))
Updated-named slug name now ds ds' unique (hit xs d ys fits _ before_eq after_eq) =
    let new : Tenant = record d { name = name; updated_at = now } in
    let front : All (λ x. same x.slug d.slug ≡ false) xs =
      Unique-front xs new ys (subst (Unique same_slug) after_eq unique) in
    let (there, all_names) = name_of-renamed slug name xs d ys front fits new refl refl in
    (
      d.name,
      subst (λ l. name_of l slug ≡ some d.name) (sym before_eq) there,
      λ k.
          subst (λ l. name_of l k ≡ put_name slug name (name_of ds) k) (sym after_eq)
            (subst (λ l. name_of (xs ++ new ∷ ys) k ≡ put_name slug name (name_of l) k)
              (sym before_eq) (all_names k)),
    )

module _ ⦃u : Casing⦄ {T : Type 0} (tenants : Collection T Tenant) where
  -- A command as the store runs it.
  abbrev pub run : Command → (now : Time) → ObjectId → Action T Tenant
  run (create slug name) now id = create_tenant tenants (record { slug = slug; name = name }) now id
  run (rename slug name) now id = update_tenant_name tenants slug name now

  -- A command that succeeds steps the map that the collection stands for: it adds a slug that was not
  -- there, or gives a slug that was there its new name, and leaves every other name; as long as the
  -- unique index on slugs holds behind it.
  pub run-Step :
      IsMongo tenants
      → (c : Command) (now : Time) (id : ObjectId) (s s' : T) (t : Tenant)
      → Unique same_slug (tenants.docs s')
      → run c now id s ≡ (s', ok t)
      → Step c (name_of (tenants.docs s)) (name_of (tenants.docs s'))
  unfolding create_tenant update_tenant_name
  run-Step mongo (create slug name) now id s s' t unique h =
      let key : Text = normalize_slug slug in
      let (_, h1) = require-eq-ok tenants.configured not_configured s _ h in
      let (_, h2) =
        require-eq-ok (not (is_empty key))
          (message "store: tenant slug is required and must be lowercase alphanumeric or hyphen") s
          _ h1 in
      let new : Tenant = record {
        id = id;
        slug = key;
        name = if is_empty (trim_space name) then to_upper key else trim_space name;
        created_at = now;
        updated_at = now;
      } in
      let (_, wrote, h3) = after-eq-ok _ _ h2 in
      let inserted : (tenants.insert_one new s).1 ≡ ok tt = on_error-eq-ok _ _ wrote in
      let stored : tenants.docs s' ≡ tenants.docs s ++ new ∷ [] =
        subst (λ x. tenants.docs x ≡ tenants.docs s ++ new ∷ [])
          (ap (λ (x : T × Result Tenant). x.0) h3) (mongo.insert_one_done new s inserted) in
      let front : All (λ x. same x.slug new.slug ≡ false) (tenants.docs s) =
        Unique-front (tenants.docs s) new [] (subst (Unique same_slug) stored unique) in
      let (fresh, all_names) = name_of-added key [] (tenants.docs s) new [] front (same_refl key) in
      created slug name (name_of (tenants.docs s)) (name_of (tenants.docs s')) fresh (λ k.
        subst (λ l. name_of l k ≡ put_name key new.name (name_of (tenants.docs s)) k) (sym stored)
          (all_names k))
  run-Step mongo (rename slug name) now id s s' t unique h =
      let key : Text = normalize_slug slug in
      let (_, h1) = require-eq-ok tenants.configured not_configured s _ h in
      let (_, h2) =
        require-eq-ok (not (is_empty key || is_blank name))
          (message "store: tenant slug and name are required") s _ h1 in
      let one : T × Result Tenant =
        tenants.find_one_and_update (λ t. same t.slug key)
          (λ t. record t { name = trim_space name; updated_at = now }) s in
      let changed : one.1 ≡ ok t = on_error-eq-ok _ _ (ap (λ (x : T × Result Tenant). x.1) h2) in
      let (d, _, _, _, updated) = mongo.find_one_and_update_done _ _ s t changed in
      let at_end : Updated (λ t. same t.slug key)
          (λ t. record t { name = trim_space name; updated_at = now }) (tenants.docs s) 1
          (tenants.docs s') =
        subst
          (λ x.
            Updated (λ t. same t.slug key)
              (λ t. record t { name = trim_space name; updated_at = now }) (tenants.docs s) 1
              (tenants.docs x))
          (ap (λ (x : T × Result Tenant). x.0) h2) updated in
      let (old, there, all_names) =
        Updated-named key (trim_space name) now (tenants.docs s) (tenants.docs s') unique at_end in
      renamed slug name old (name_of (tenants.docs s)) (name_of (tenants.docs s')) there all_names
