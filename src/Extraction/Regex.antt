-- ===== src/Extraction/Regex.antt =====
-- Go's regexp package, as far as the extraction uses it: the leftmost match, and of those the one that
-- comes first when alternatives are tried from left to right and repetitions from the longest.
pub mod Language
use kd_server.Common.{
  ℕ, zero, suc, ◌+◌, ◌-◌, ◌*◌, ◌/◌, ◌%◌, ◌^◌, ◌≤◌, ◌<◌, String, ◌≡◌, refl, sym, ap, ◌∙◌, ◌≢◌, ◌↔◌,
  ◌⊎◌, inl, inr, Bool, true, false, not, ◌&&◌, ◌||◌, Option, none, some, List, [], ◌∷◌, ◌++◌, map,
  Memᴰ, arith, ltb, leb, ◌==◌, ==_iff, within, if◌then◌else◌, Bool-cases, Option-cases,
  Result-cases, length, take, drop, any, all, keep, length-append, All, All-append, All-map,
  All-mem, Result, ok, err, Error, message, about, wrap, fault, no_documents, duplicate_key,
  is_no_documents,
}
use kd_server.Text.{
  Text, codes, same, is_empty, is_blank, is_space, trim_space, Casing, to_lower, to_upper,
  has_prefix, trim_prefix, cut, same_iff, same_refl,
}
use kd_server.Tenant.{is_none}

-- A character, its repetition `c*` and option `c?`, the start of the text, the border of a word, a
-- sequence and an alternative.
pub data Regex : Type 0 where
  one many maybe : (ℕ → Bool) → Regex
  start boundary : Regex
  seq alt : Regex → Regex → Regex

abbrev pub lit : ℕ → ℕ → Bool
lit c d = c == d

-- `[0-9A-Za-z_]`
unfoldable pub is_word : ℕ → Bool
is_word c = within b'0' b'9' c || within b'A' b'Z' c || c == b'_' || within b'a' b'z' c

abbrev word_before : Option ℕ → Bool
word_before none = false
word_before (some c) = is_word c

abbrev word_behind : Text → Bool
word_behind [] = false
word_behind (c ∷ s) = is_word c

abbrev pub differ : Bool → Bool → Bool
differ true b = not b
differ false b = b

-- `\b`
unfoldable pub is_boundary : Option ℕ → Text → Bool
unfolding is_word
is_boundary before s = differ (word_before before) (word_behind s)

abbrev pub or_try {ℓ} : {A : Type ℓ} → Option A → Option A → Option A
or_try none o = o
or_try (some a) o = some a

module _ {A : Type 0} where
  -- The longest repetition first.
  unfoldable pub run_many : (ℕ → Bool) → Option ℕ → Text → (Option ℕ → Text → Option A) → Option A
  run_many p before [] k = k before []
  run_many p before (c ∷ s) k =
      let longer = run_many p (some c) s k in
      if p c then or_try longer (k before (c ∷ s)) else k before (c ∷ s)

  -- A match from here on, in front of what `k` still needs; `before` is the character in front.
  unfoldable pub run : Regex → Option ℕ → Text → (Option ℕ → Text → Option A) → Option A
  unfolding run_many is_boundary
  run (one p) before [] k = none
  run (one p) before (c ∷ s) k = if p c then k (some c) s else none
  run (many p) before s k = run_many p before s k
  run (maybe p) before [] k = k before []
  run (maybe p) before (c ∷ s) k =
      if p c then or_try (k (some c) s) (k before (c ∷ s)) else k before (c ∷ s)
  run start none s k = k none s
  run start (some c) s k = none
  run boundary before s k = if is_boundary before s then k before s else none
  run (seq a b) before s k = run a before s (λ mid t. run b mid t k)
  run (alt a b) before s k = or_try (run a before s k) (run b before s k)

-- What matches, the character at its end, and the text behind it.
pub record Match : Type 0 where
  pub matched : Text
  pub last : Option ℕ
  pub rest : Text

unfoldable pub match_here : Regex → Option ℕ → Text → Option Match
unfolding run
match_here r before s =
    run r before s
      (λ last t. some (record { matched = take (length s - length t) s; last = last; rest = t }))

unfoldable pub find_match : Regex → Option ℕ → Text → Option Match
unfolding match_here
find_match r before [] = match_here r before []
find_match r before (c ∷ s) = or_try (match_here r before (c ∷ s)) (find_match r (some c) s)

abbrev pub matched_text : Option Match → Text
matched_text none = []
matched_text (some m) = m.matched

-- `r.FindString(s)`, empty where nothing matches.
unfoldable pub find_string : Regex → Text → Text
unfolding find_match
find_string r s = matched_text (find_match r none s)

-- `r.MatchString(s)`
unfoldable pub match_string : Regex → Text → Bool
unfolding find_match
match_string r s = not (is_none (find_match r none s))

abbrev second_match : Regex → Option Match → List Text
second_match r none = []
second_match r (some m) = m.matched ∷ []

abbrev two_matches : Regex → Option Match → List Text
two_matches r none = []
two_matches r (some m) = m.matched ∷ second_match r (find_match r m.last m.rest)

-- The first two matches, one behind the other.
unfoldable pub find_two : Regex → Text → List Text
unfolding find_match
find_two r s = two_matches r (find_match r none s)

-- `c{n}`
abbrev pub times : ℕ → Regex → Regex → Regex
times zero r rest = rest
times (suc n) r rest = seq r (times n r rest)
