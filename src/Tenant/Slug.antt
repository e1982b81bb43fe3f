-- ===== src/Tenant/Slug.antt =====
-- `normalizeSlug` of internal/store/tenant.go and `slugify` of cmd/tui/tenants.go.
use kd_server.Common.{
  ℕ, Bool, true, false, not, ◌&&◌, ◌||◌, [], ◌∷◌, ◌≡◌, ◌↔◌, refl, ◌⊎◌, inl, inr, if◌then◌else◌,
  ◌==◌, within, all, keep, All, arith, Bool-cases,
}
use kd_server.Text.{Text, is_empty, is_space, trim_space, Casing, to_lower, lower_rune, replace}
use kd_server.Text.Trim.{IsSolid, trim_space-IsSolid}

-- A character of `[a-z0-9\-]`.
unfoldable pub is_slug_char : ℕ → Bool
is_slug_char c = within b'a' b'z' c || within b'0' b'9' c || c == b'-'

-- `slugPattern.MatchString`, of `^[a-z0-9\-]+$`
unfoldable pub matches_slug_pattern : Text → Bool
matches_slug_pattern s = not (is_empty s) && all is_slug_char s

-- What a slug is: one or more lower-case letters, digits and hyphens.
abbrev pub IsSlug : Text → Type 0
IsSlug s = (is_empty s ≡ false) × All (λ c. is_slug_char c ≡ true) s

all_iff : (p : ℕ → Bool) (s : Text) → (all p s ≡ true) ↔ All (λ c. p c ≡ true) s
all_iff p [] = ground arith
all_iff p (c ∷ s) =
    let (to, from) = all_iff p s in (λ h. ground (arith, to), λ h. ground (arith, from))

pub matches_slug_pattern_iff : (s : Text) → (matches_slug_pattern s ≡ true) ↔ IsSlug s
unfolding matches_slug_pattern
matches_slug_pattern_iff s =
    let (to, from) = all_iff is_slug_char s in
    (λ h. (ground arith, to (ground arith)), λ h. rw (h.0, from h.1))

module _ ⦃u : Casing⦄ where
  unfoldable pub normalize_slug : Text → Text
  normalize_slug slug =
      let trimmed = trim_space (to_lower slug) in
      let dashed = replace b' ' b'-' trimmed in
      if is_empty dashed then [] else if matches_slug_pattern dashed then dashed else []

  -- `slugify` of the TUI: the default slug for a new tenant's name.
  unfoldable pub slugify : Text → Text
  slugify input = keep is_slug_char (replace b' ' b'-' (trim_space (to_lower input)))

-- The last two returns of `normalizeSlug`.
checked-cases :
    (d : Text)
    → let r = (if is_empty d then [] else if matches_slug_pattern d then d else []) in
      (r ≡ []) ⊎ IsSlug r
checked-cases [] = inl refl
checked-cases (c ∷ d) = elim (Bool-cases (matches_slug_pattern (c ∷ d))) [
  | inl y ↦ rw y (inr ((matches_slug_pattern_iff (c ∷ d)).0 y))
  | inr n ↦ rw n (inl refl)
]

keep-All : (p : ℕ → Bool) (s : Text) → All (λ c. p c ≡ true) (keep p s)
keep-All p [] = tt
keep-All p (c ∷ s) = elim (Bool-cases (p c)) [
  | inl y ↦ rw y (y, keep-All p s)
  | inr n ↦ rw n (keep-All p s)
]

module _ ⦃u : Casing⦄ where
  slug_char-lower_rune : (c : ℕ) → is_slug_char c ≡ true → lower_rune c ≡ c
  unfolding is_slug_char lower_rune
  slug_char-lower_rune c h = ground arith

  to_lower-All : (s : Text) → All (λ c. is_slug_char c ≡ true) s → to_lower s ≡ s
  to_lower-All [] h = refl
  to_lower-All (c ∷ s) (p, h) = cc (slug_char-lower_rune c p, to_lower-All s h)

  slug_char-IsSolid : (s : Text) → All (λ c. is_slug_char c ≡ true) s → IsSolid s
  unfolding is_slug_char is_space
  slug_char-IsSolid [] h = tt
  slug_char-IsSolid (c ∷ s) (p, h) = (ground arith, slug_char-IsSolid s h)

  replace-All : (s : Text) → All (λ c. is_slug_char c ≡ true) s → replace b' ' b'-' s ≡ s
  unfolding replace is_slug_char
  replace-All [] h = refl
  replace-All (c ∷ s) (p, h) = ground (arith, replace-All s h)

  dashed_slug :
      (s : Text)
      → All (λ c. is_slug_char c ≡ true) s
      → replace b' ' b'-' (trim_space (to_lower s)) ≡ s
  dashed_slug s h =
      rw (to_lower-All s h, trim_space-IsSolid s (slug_char-IsSolid s h)) (replace-All s h)

  normalize_slug-IsSlug : (s : Text) → IsSlug s → normalize_slug s ≡ s
  unfolding normalize_slug
  normalize_slug-IsSlug s h = rw (dashed_slug s h.1, h.0) (rw ((matches_slug_pattern_iff s).1 h))

  normalize_slug-nil : normalize_slug [] ≡ []
  unfolding normalize_slug replace trim_space
  normalize_slug-nil = refl

  pub normalize_slug-cases : (s : Text) → (normalize_slug s ≡ []) ⊎ IsSlug (normalize_slug s)
  unfolding normalize_slug
  normalize_slug-cases s = checked-cases (replace b' ' b'-' (trim_space (to_lower s)))

  -- `normalizeSlug` keeps the empty text and every slug (one or more characters of `[a-z0-9-]`) as
  -- they are, and changes every other text.
  pub normalize_slug-fixed_iff : (s : Text) → (normalize_slug s ≡ s) ↔ ((s ≡ []) ⊎ IsSlug s)
  normalize_slug-fixed_iff s = (
    λ h. rw h at (normalize_slug-cases s),
    λ h. elim h [ inl e ↦ rw e normalize_slug-nil | inr g ↦ normalize_slug-IsSlug s g ],
  )

  pub normalize_slug_idem : (s : Text) → normalize_slug (normalize_slug s) ≡ normalize_slug s
  normalize_slug_idem s = (normalize_slug-fixed_iff (normalize_slug s)).1 (normalize_slug-cases s)

  -- The slug that the TUI proposes is accepted by the store as it is, unless it is empty: then the
  -- store takes it for a missing slug.
  pub normalize_slug-slugify : (s : Text) → normalize_slug (slugify s) ≡ slugify s
  unfolding slugify
  normalize_slug-slugify s = kept (slugify s) (keep-All is_slug_char _)
    where
      kept : (t : Text) → All (λ c. is_slug_char c ≡ true) t → normalize_slug t ≡ t
      kept [] h = normalize_slug-nil
      kept (c ∷ t) h = normalize_slug-IsSlug (c ∷ t) (refl, h)
