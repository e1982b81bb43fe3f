-- ===== src/Extraction/Parse/Shapes.antt =====
-- What a national id and a name of a parsed card look like.
use kd_server.Common.{
  sym, ◌==◌, ==_iff, ℕ, zero, suc, ◌≡◌, refl, ap, ◌∙◌, ◌⊎◌, inl, inr, Bool, true, false, not, ◌&&◌,
  ◌||◌, List, [], ◌∷◌, ◌++◌, arith, within, Bool-cases, length, all, All,
}
use mathlib.Core.Path.{subst}
use kd_server.Text.{Text, codes, is_empty, is_space, trim_space, Casing}
use kd_server.Extraction.Regex.{one, boundary, times}
use kd_server.Extraction.Words.{fields, join_words, starts_word, onto_first}
use kd_server.Extraction.Fields.{
  is_letter, is_name_char, is_name_text, is_blank_char, clean_english_name,
}
use kd_server.Extraction.Parse.{DocumentExtraction, any_case_letter, national_id_pattern, compact}
use kd_server.Extraction.Regex.Language.{Word}

-- A letter, white space, and six digits.
abbrev pub CardNumber : Text → Type 0
CardNumber w =
    (c : ℕ) × (blanks digits : Text) × (w ≡ c ∷ blanks ++ digits)
    × (any_case_letter c ≡ true)
    × (all is_blank_char blanks ≡ true)
    × (all (within b'0' b'9') digits ≡ true)
    × (length digits ≡ 6)

-- Empty, or a number of the card in upper case and without its spaces.
abbrev pub NationalId : ⦃u : Casing⦄ → Text → Type 0
NationalId n = (n ≡ []) ⊎ ((w : Text) × CardNumber w × (n ≡ compact w))

-- A letter, an apostrophe or a hyphen.
abbrev pub is_word_char : ℕ → Bool
is_word_char c = (within b'A' b'Z' c || within b'a' b'z' c) || c == b'\'' || c == b'-'

abbrev pub NameWord : Text → Type 0
NameWord w = (is_empty w ≡ false) × (all is_word_char w ≡ true)

-- Empty, or two to five words with one space between them.
abbrev pub EnglishName : Text → Type 0
EnglishName n =
    (n ≡ [])
    ⊎ ((ws : List Text) × (n ≡ join_words ws) × (within 2 5 (length ws) ≡ true) × All NameWord ws)

abbrev pub Sex : Text → Type 0
Sex s = (s ≡ []) ⊎ (s ≡ codes "F") ⊎ (s ≡ codes "M")

pub record WellFormed ⦃u : Casing⦄ (x : DocumentExtraction) : Type 0 where
  pub national : NationalId x.national_id
  pub sex : Sex x.sex
  pub name : EnglishName x.name_english
  pub common : EnglishName x.common_name

-- The words of a text have its characters, and so has their join.
all-first :
    (p : ℕ → Bool) (c : ℕ) (ws : List Text)
    → p c ≡ true
    → All (λ w. all p w ≡ true) ws
    → All (λ w. all p w ≡ true) (onto_first c ws)
all-first p c [] y h = (ground arith, tt)
all-first p c (w ∷ ws) y (q, h) = (ground arith, h)

fields-all : (p : ℕ → Bool) (s : Text) → all p s ≡ true → All (λ w. all p w ≡ true) (fields s)
unfolding fields
fields-all p [] h = tt
fields-all p (c ∷ s) h =
    let here : p c ≡ true = ground arith in
    let rest : All (λ w. all p w ≡ true) (fields s) = fields-all p s (ground arith) in
    elim (Bool-cases (is_space c)) [
      | inl y ↦ rw y rest
      | inr n ↦ elim (Bool-cases (starts_word s)) [
        | inl y ↦ rw (n, y) (all-first p c (fields s) here rest)
        | inr m ↦ rw (n, m) (ground arith, rest)
      ]
    ]

-- A word of a text: not empty, without white space.
abbrev Plain : Text → Type 0
Plain w = (is_empty w ≡ false) × (all (λ c. not (is_space c)) w ≡ true)

onto_first-Plain :
    (c : ℕ) (ws : List Text) → is_space c ≡ false → All Plain ws → All Plain (onto_first c ws)
onto_first-Plain c [] n h = ((refl, ground arith), tt)
onto_first-Plain c (w ∷ ws) n ((filled, q), h) = ((refl, ground arith), h)

fields-Plain : (s : Text) → All Plain (fields s)
unfolding fields
fields-Plain [] = tt
fields-Plain (c ∷ s) = elim (Bool-cases (is_space c)) [
  | inl y ↦ rw y (fields-Plain s)
  | inr n ↦ elim (Bool-cases (starts_word s)) [
    | inl y ↦ rw (n, y) (onto_first-Plain c (fields s) n (fields-Plain s))
    | inr m ↦ rw (n, m) ((refl, ground arith), fields-Plain s)
  ]
]

is_space-blank : is_space b' ' ≡ true
unfolding is_space
is_space-blank = refl

name_char : (c : ℕ) → is_name_char c ≡ true → is_space c ≡ false → is_word_char c ≡ true
name_char c h plain = elim (Bool-cases (c == b' ')) [
  | inl blank ↦
      let bad : is_space b' ' ≡ false =
        subst (λ x. is_space x ≡ false) ((==_iff c b' ').0 blank) plain in
      absurd (let z : true ≡ false = sym is_space-blank ∙ bad in cc)
  | inr other ↦
      without_false (is_letter c) (c == b'\'') (c == b'-')
        (subst (λ x. (is_letter c || c == b'\'' || x || c == b'-') ≡ true) other h)
]
  where
    without_false : (a b d : Bool) → (a || b || false || d) ≡ true → (a || b || d) ≡ true
    without_false true b d e = refl
    without_false false true d e = refl
    without_false false false d e = e

name_chars :
    (w : Text)
    → all is_name_char w ≡ true
    → all (λ c. not (is_space c)) w ≡ true
    → all is_word_char w ≡ true
name_chars [] h g = refl
name_chars (c ∷ w) h g =
    let (h0, h1) = &&-parts (is_name_char c) (all is_name_char w) h in
    let (g0, g1) = &&-parts (not (is_space c)) (all (λ c. not (is_space c)) w) g in
    let here : is_word_char c ≡ true = name_char c h0 (plain (is_space c) g0) in
    rw (here, name_chars w h1 g1) refl
  where
    &&-parts : (a b : Bool) → (a && b) ≡ true → (a ≡ true) × (b ≡ true)
    &&-parts true b e = (refl, e)
    &&-parts false b e = cc

    plain : (a : Bool) → not a ≡ true → a ≡ false
    plain true e = cc
    plain false e = refl

name_words :
    (ws : List Text) → All (λ w. all is_name_char w ≡ true) ws → All Plain ws → All NameWord ws
name_words [] h g = tt
name_words (w ∷ ws) (chars, h) ((filled, plain), g) =
    ((filled, name_chars w chars plain), name_words ws h g)

-- What is left of a name is one.
pub clean_english_name-EnglishName : (s : Text) → EnglishName (clean_english_name s)
unfolding clean_english_name is_name_text
clean_english_name-EnglishName value =
    let s : Text = trim_space value in
    elim (Bool-cases (is_name_text s && within 2 5 (length (fields s)))) [
      | inr n ↦ inl (rw n refl)
      | inl y ↦
          let chars : all is_name_char s ≡ true = ground arith in
          let size : within 2 5 (length (fields s)) ≡ true = ground arith in
          inr (
            fields s,
            rw y refl,
            size,
            name_words (fields s) (fields-all is_name_char s chars) (fields-Plain s),
          )
    ]

digits-Word :
    (n : ℕ) (p : ℕ → Bool) (w : Text)
    → Word (times n (one p) boundary) w
    → (all p w ≡ true) × (length w ≡ n)
digits-Word zero p w h = (rw h refl, rw h refl)
digits-Word (suc n) p w (v, t, parts, (c, is_c, good), rest) =
    let (chars, size) = digits-Word n p t rest in
    let whole : w ≡ c ∷ t = parts ∙ ap (λ x. x ++ t) is_c in
    (rw whole (ground arith), rw whole (ap suc size))

pub national-CardNumber : (w : Text) → Word national_id_pattern w → CardNumber w
national-CardNumber w
      (
        u1,
        v1,
        parts1,
        empty1,
        (u2, v2, parts2, (c, is_c, letter), (u3, v3, parts3, blanks, rest)),
      ) =
    let (chars, size) = digits-Word 6 (within b'0' b'9') v3 rest in
    (
      c,
      u3,
      v3,
      parts1 ∙ ap (λ x. x ++ v1) empty1 ∙ parts2 ∙ ap (λ x. x ++ v2) is_c ∙ ap (λ x. c ∷ x) parts3,
      letter,
      blanks,
      chars,
      size,
    )
