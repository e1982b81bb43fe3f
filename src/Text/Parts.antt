-- ===== src/Text/Parts.antt =====
-- Laws of `strings.HasPrefix` and `strings.Cut`.
use kd_server.Common.{ℕ, ◌≡◌, refl, true, false, some, [], ◌∷◌, ◌++◌, arith, ◌==◌, ==_iff, All}
use kd_server.Text.{Text, has_prefix, cut}

pub has_prefix-append : (p s : Text) → has_prefix p (p ++ s) ≡ true
unfolding has_prefix
has_prefix-append [] s = refl
has_prefix-append (c ∷ p) s = ground (arith, ==_iff c c, has_prefix-append p s)

-- A text without the separator, the separator and any text are cut at that place.
pub cut-append :
    (sep : ℕ) (before after : Text)
    → All (λ c. (c == sep) ≡ false) before
    → cut sep (before ++ sep ∷ after) ≡ some (before, after)
unfolding cut
cut-append sep [] after h = ground (arith, ==_iff sep sep)
cut-append sep (c ∷ before) after (p, h) = rw (p, cut-append sep before after h)
