-- ===== src/Text.antt =====
-- What the program uses of Go's `strings` and `unicode` packages. A text is the list of its code
-- points; the tables that map the case of the letters beyond ASCII are the instance `Casing`.
pub mod Trim
pub mod Parts
pub mod Encode
use Prim.Native.Char.{code}
use kd_server.Common.{
  ℕ, zero, suc, ◌+◌, ◌-◌, String, ◌≡◌, refl, ◌↔◌, Bool, true, false, not, ◌&&◌, ◌||◌, Option, none,
  some, List, [], ◌∷◌, ◌++◌, map, arith, ltb, leb, ◌==◌, ==_iff, within, if◌then◌else◌, length,
  drop, keep,
}

abbrev pub Text : Type 0
Text = List ℕ

abbrev pub codes : String → Text
codes String.[] = []
codes (String.◌∷◌ c s) = code c ∷ codes s

-- `s == t`
abbrev pub same : Text → Text → Bool
same [] [] = true
same [] (_ ∷ _) = false
same (_ ∷ _) [] = false
same (c ∷ s) (d ∷ t) = c == d && same s t

-- `s == ""`
abbrev pub is_empty : Text → Bool
is_empty [] = true
is_empty (_ ∷ _) = false

-- The order in which MongoDB sorts texts: code point by code point.
abbrev pub text_leb : Text → Text → Bool
text_leb [] t = true
text_leb (c ∷ s) [] = false
text_leb (c ∷ s) (d ∷ t) = ltb c d || c == d && text_leb s t

-- `unicode.IsSpace`
unfoldable pub is_space : ℕ → Bool
is_space c =
    within 9 13 c
    || c == 32
    || c == 0x85
    || c == 0xA0
    || c == 0x1680
    || within 0x2000 0x200A c
    || c == 0x2028
    || c == 0x2029
    || c == 0x202F
    || c == 0x205F
    || c == 0x3000

pub trim_left : Text → Text
trim_left [] = []
trim_left (c ∷ s) = if is_space c then trim_left s else c ∷ s

pub trim_right : Text → Text
trim_right [] = []
trim_right (c ∷ s) = let rest = trim_right s in if is_space c && is_empty rest then [] else c ∷ rest

-- `strings.TrimSpace`
unfoldable pub trim_space : Text → Text
unfolding trim_left trim_right is_space
trim_space s = trim_left (trim_right s)

-- `strings.TrimSpace(s) == ""`
abbrev pub is_blank : Text → Bool
is_blank s = is_empty (trim_space s)

-- `unicode.ToLower` and `unicode.ToUpper` beyond ASCII.
pub record Casing : Type 0 where
  pub lower : ℕ → ℕ
  pub upper : ℕ → ℕ

module _ ⦃u : Casing⦄ where
  unfoldable pub lower_rune : ℕ → ℕ
  lower_rune c = if ltb c 128 then (if within b'A' b'Z' c then c + 32 else c) else u.lower c

  unfoldable pub upper_rune : ℕ → ℕ
  upper_rune c = if ltb c 128 then (if within b'a' b'z' c then c - 32 else c) else u.upper c

  -- `strings.ToLower`
  abbrev pub to_lower : Text → Text
  to_lower = map lower_rune

  -- `strings.ToUpper`
  abbrev pub to_upper : Text → Text
  to_upper = map upper_rune

-- `strings.ReplaceAll(s, a, b)` for texts `a` and `b` of one character.
unfoldable pub replace : ℕ → ℕ → Text → Text
replace a b = map (λ c. if c == a then b else c)

-- `strings.ReplaceAll(s, a, "")` for a text `a` of one character.
unfoldable pub remove : ℕ → Text → Text
remove a = keep (λ c. not (c == a))

-- `strings.HasPrefix`
unfoldable pub has_prefix : Text → Text → Bool
has_prefix [] s = true
has_prefix (_ ∷ _) [] = false
has_prefix (p ∷ ps) (c ∷ s) = p == c && has_prefix ps s

-- `strings.TrimPrefix`
unfoldable pub trim_prefix : Text → Text → Text
unfolding has_prefix
trim_prefix p s = if has_prefix p s then drop (length p) s else s

-- `strings.Cut` at a separator of one character; `none` is `!ok`.
unfoldable pub cut : ℕ → Text → Option (Text × Text)
cut sep [] = none
cut sep (c ∷ s) =
    let rest = cut sep s in
    if c == sep
    then some ([], s)
    else elim rest [ none ↦ none | some (before, after) ↦ some (c ∷ before, after) ]

pub same_iff : (s t : Text) → (same s t ≡ true) ↔ (s ≡ t)
same_iff [] [] = ground arith
same_iff [] (_ ∷ _) = ground arith
same_iff (_ ∷ _) [] = ground arith
same_iff (c ∷ s) (d ∷ t) = ground (arith, ==_iff c d, same_iff s t)

pub same_refl : (s : Text) → same s s ≡ true
same_refl s = (same_iff s s).1 refl
