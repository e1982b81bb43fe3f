-- ===== src/Admin/Tests.antt =====
-- A new name for one of two tenants.
use kd_server.Common.{◌≡◌, refl, List, [], ◌∷◌, Result, ok}
use kd_server.Text.{Text, codes, is_space, trim_space, lower_rune, upper_rune, replace}
use kd_server.Mongo.Laws.{Unique}
use kd_server.Tenant.{Tenant, create_tenant, update_tenant_name}
use kd_server.Tenant.Slug.{normalize_slug, matches_slug_pattern, is_slug_char}
use kd_server.Admin.Registry.{name_of, same_slug, Command, rename, Step}
use kd_server.Mongo.Memory.{memory, memory-IsMongo}
use kd_server.Samples.{noon, plain_casing}
use kd_server.Admin.Refines.{run, run-Step}

code : Unit {0}
unfolding memory normalize_slug replace matches_slug_pattern is_slug_char trim_space is_space
    lower_rune upper_rune create_tenant update_tenant_name
code = tt

abbrev tenant : Text → Tenant
tenant slug = record {
  id = codes "1";
  slug = slug;
  name = slug;
  created_at = noon;
  updated_at = noon;
}

abbrev two : List Tenant
two = tenant (codes "acme") ∷ tenant (codes "beta") ∷ []

abbrev renamed_beta : Tenant
renamed_beta = record (tenant (codes "beta")) { name = codes "Beta Co" }

abbrev command : Command
command = rename (codes " Beta") (codes "Beta Co ")

abbrev out : List Tenant × Result Tenant
out = run memory command noon (codes "2") two

out_ok : out ≡ (out.0, ok renamed_beta)
unfolding code
out_ok = refl

out-Unique : Unique same_slug out.0
unfolding code
out-Unique = ((refl, tt), (tt, tt))

run-Step_example : Step command (name_of two) (name_of out.0)
unfolding code
run-Step_example =
    run-Step memory memory-IsMongo command noon (codes "2") two out.0 renamed_beta out-Unique out_ok
