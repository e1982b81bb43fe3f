-- ===== src/Person/Review/Laws.antt =====
-- What a decision changes, and what the review lists.
use kd_server.Common.{
  ◌⊎◌, inl, inr, Bool-cases, ℕ, ◌≤◌, ◌≡◌, refl, sym, ap, ◌∙◌, Bool, true, false, not, ◌&&◌, ◌||◌,
  Option, none, some, List, [], ◌∷◌, map, if◌then◌else◌, length, all, Result, ok, Error, message,
  wrap,
}
use kd_server.Text.{codes, same_iff, to_lower, Text, same, is_blank, Casing}
use kd_server.Mongo.{Action, after, writing, Collection}
use kd_server.Mongo.Laws.{IsMongo, after-eq-ok, require-eq-ok, on_error-eq-ok}
use kd_server.Time.{Time}
use kd_server.Tenant.{ObjectId, not_configured}
use kd_server.Ingest.{RawRecord, tenant_required}
use kd_server.Format.{ℤ}
use kd_server.Person.{
  codes, to_lower, raw_status_needs_review, or_hundred, set_status, is_raw, list_raw_by_status,
  update_raw_status, raw_needs_review,
}
use kd_server.Person.Review.{
  ReviewItem, review_item, object_id_from_hex, decided_status, needed, no_review_store, list_review,
  decide,
}
use kd_server.Person.Listing.{Listed, list_raw_by_status-page}

-- The raw record of an id within a tenant.
abbrev pub is_item : Text → ObjectId → RawRecord → Bool
is_item tenant id d = same d.tenant_id tenant && (same d.id id || false)

module _ ⦃u : Casing⦄ where
  -- The status that a decision, in any case of its letters, gives to a record.
  abbrev pub Decides : Text → Text → Type 0
  Decides decision status =
      ((to_lower decision ≡ codes "accept") × (status ≡ codes "resolved"))
      ⊎ ((to_lower decision ≡ codes "reject") × (status ≡ codes "rejected"))

  decided_status-Decides :
      (decision status : Text) → decided_status decision ≡ some status → Decides decision status
  unfolding decided_status
  decided_status-Decides decision status h =
      elim (Bool-cases (same (to_lower decision) (codes "accept"))) [
        | inl accept ↦ inl (
          (same_iff _ _).0 accept,
          (let g : some (codes "resolved") ≡ some status = rw accept at h in cc),
        )
        | inr other ↦ elim (Bool-cases (same (to_lower decision) (codes "reject"))) [
          | inl reject ↦ inr (
            (same_iff _ _).0 reject,
            (let g : some (codes "rejected") ≡ some status = rw (other, reject) at h in cc),
          )
          | inr neither ↦
              absurd
                (let g : Path (Option Text) none (some status) = rw (other, neither) at h in cc)
        ]
      ]

needed-eq-ok :
    {S A B : Type 0} (o : Option A) (e : Error) (s : S) (f : A → Action S B) {s' : S} {b : B}
    → after (needed o e s) f ≡ (s', ok b)
    → (a : A) × (o ≡ some a) × (f a s ≡ (s', ok b))
needed-eq-ok none e s f h = cc
needed-eq-ok (some a) e s f h = (a, refl, h)

module _ {R : Type 0} (raw : Collection R RawRecord) (mongo : IsMongo raw) where
  -- The review that is listed shows the first of the tenant's stored records with the status
  -- "needs_review", in some order: as many as the limit says, or 100 without one, and all if they are
  -- fewer. Each has its own id, source, payload and status; and listing changes nothing.
  pub list_review-page :
      (store : Bool) (tenant status : Text) (limit : ℤ) (r r' : R) (items : List ReviewItem)
      → list_review raw store tenant status limit r ≡ (r', ok items)
      → (ds : List RawRecord) × (items ≡ map review_item ds)
        × (all (λ d. same d.tenant_id tenant && same d.status raw_status_needs_review) ds ≡ true)
        × Listed tenant (codes "needs_review") (or_hundred limit) (raw.docs r) ds
        × (length ds ≤ or_hundred limit)
        × (r ≡ r')
  unfolding list_review raw_needs_review
  list_review-page store tenant status limit r r' items h =
      let (_, h1) = require-eq-ok store no_review_store r _ h in
      let (_, h2) = require-eq-ok (not (is_blank tenant)) tenant_required r _ h1 in
      let (_, h3) =
        require-eq-ok (is_blank status || same status raw_status_needs_review)
          (message "services: unsupported review status") r _ h2 in
      let one : R × Result (List RawRecord) =
        list_raw_by_status raw tenant raw_status_needs_review limit r in
      let (ds, listed, h4) = after-eq-ok one _ h3 in
      let state : one.0 ≡ r' = ap (λ (x : R × Result (List ReviewItem)). x.0) h4 in
      let answer : Path (Result (List ReviewItem)) (ok (map review_item ds)) (ok items) =
        ap (λ (x : R × Result (List ReviewItem)). x.1) h4 in
      let (kept, bounded, unread, first_ones) =
        list_raw_by_status-page raw mongo tenant raw_status_needs_review limit r one.0 ds
          (ap (λ x. (one.0, x)) listed) in
      let shown : map review_item ds ≡ items = cc answer in
      (ds, sym shown, kept, first_ones, bounded, unread ∙ state)

  module _ ⦃u : Casing⦄ where
    -- A decision that succeeds was to accept or to reject, on a well-formed id. It sets the status and the
    -- time of the tenant's record of that id, if there is one, and leaves all else as it was, the person
    -- of that record too.
    pub decide-exact :
        (store : Bool) (tenant raw_id decision : Text) (now : Time) (r r' : R)
        → decide raw store tenant raw_id decision now r ≡ (r', ok tt)
        → (id status : Text) × (object_id_from_hex raw_id ≡ some id)
          × Decides decision status
          × (raw.docs r'
              ≡ map
                  (λ d.
                    if is_item tenant id d
                    then record d { status = status; updated_at = now }
                    else d)
                  (raw.docs r))
    unfolding decide update_raw_status is_raw set_status
    decide-exact store tenant raw_id decision now r r' h =
        let (_, h1) = require-eq-ok store no_review_store r _ h in
        let (_, h2) = require-eq-ok (not (is_blank tenant)) tenant_required r _ h1 in
        let (_, h3) =
          require-eq-ok (not (is_blank raw_id)) (message "services: raw id required") r _ h2 in
        let (id, read_id, h4) =
          needed-eq-ok (object_id_from_hex raw_id) (message "services: invalid raw id") r _ h3 in
        let (status, read_status, h5) =
          needed-eq-ok (decided_status decision)
            (message "services: decision must be 'accept' or 'reject'") r _ h4 in
        let (_, h6) = require-eq-ok raw.configured not_configured r _ h5 in
        let one : R × Result ℕ =
          writing (wrap "store: update raw status")
            (raw.update_many (is_raw tenant (id ∷ [])) (set_status status [] now)) r in
        let (n, updated, h7) = after-eq-ok one _ h6 in
        let state : one.0 ≡ r' = ap (λ (x : R × Result (Unit {0})). x.0) h7 in
        (
          id,
          status,
          read_id,
          decided_status-Decides decision status read_status,
          ap raw.docs (sym state)
              ∙ mongo.update_many_done _ _ r n
                  (on_error-eq-ok (wrap "store: update raw status") _ updated),
        )
