-- ===== src/Person/Listing.antt =====
-- The raw records of a listing.
use kd_server.Common.{
  keep, ◌∙◌, refl, take, ℕ, zero, suc, ◌≤◌, ◌≡◌, ap, true, not, ◌&&◌, List, arith, length, all,
  Result, ok, wrap,
}
use mathlib.Core.List.{Perm}
use kd_server.Text.{Text, same}
use kd_server.Mongo.{page, Query, Collection}
use kd_server.Mongo.Laws.{IsMongo, require-eq-ok, on_error-eq-ok}
use kd_server.Time.{before}
use kd_server.Tenant.{not_configured}
use kd_server.Ingest.{RawRecord}
use kd_server.Format.{ℤ, pos, negsuc}
use kd_server.Person.{or_hundred, list_raw_by_status}
use kd_server.Mongo.Pages.{find-page}

or_hundred-positive : (limit : ℤ) → 1 ≤ or_hundred limit
or_hundred-positive (pos zero) = omega arith
or_hundred-positive (pos (suc n)) = omega arith
or_hundred-positive (negsuc n) = omega arith

-- The first `n` of the tenant's stored records of a status, in some order.
abbrev pub Listed : Text → Text → ℕ → List RawRecord → List RawRecord → Type 0
Listed tenant status n docs ds =
    (whole : List RawRecord) × Perm whole
      (keep (λ d. same d.tenant_id tenant && same d.status status) docs)
    × (ds ≡ take n whole)

first_page : {A : Type 0} (n : ℕ) (ds : List A) → 1 ≤ n → page 0 n ds ≡ take n ds
first_page zero ds h = absurd (omega arith)
first_page (suc n) ds h = refl

-- The records of a listing.
pub list_raw_by_status-page :
    {R : Type 0} (raw : Collection R RawRecord)
    → IsMongo raw
    → (tenant status : Text) (limit : ℤ) (r r' : R) (ds : List RawRecord)
    → list_raw_by_status raw tenant status limit r ≡ (r', ok ds)
    → (all (λ d. same d.tenant_id tenant && same d.status status) ds ≡ true)
      × (length ds ≤ or_hundred limit)
      × (r ≡ r')
      × Listed tenant status (or_hundred limit) (raw.docs r) ds
unfolding list_raw_by_status
list_raw_by_status-page {R = R} raw mongo tenant status limit r r' ds h =
    let (_, h1) = require-eq-ok raw.configured not_configured r _ h in
    let q : Query RawRecord = record {
      matches = λ d. same d.tenant_id tenant && same d.status status;
      precedes = λ c d. not (before d.created_at c.created_at);
      skip = 0;
      limit = or_hundred limit;
    } in
    let found : raw.find q r ≡ ok ds =
      on_error-eq-ok (wrap "store: list raw") _
        (ap (λ (x : R × Result (List RawRecord)). x.1) h1) in
    let (kept, bounded) = find-page raw mongo q r ds found in
    let (whole, perm, paged) = mongo.find_page q r ds found in
    (
      kept,
      bounded (or_hundred-positive limit),
      ap (λ (x : R × Result (List RawRecord)). x.0) h1,
      (whole, perm, paged ∙ first_page (or_hundred limit) whole (or_hundred-positive limit)),
    )
