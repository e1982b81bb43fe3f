-- ===== src/Extraction/Fields.antt =====
-- The helpers of `parseIdentityText`: labels, tags, and what a name or an address may be.
use kd_server.Common.{
  ℕ, suc, ◌+◌, ◌/◌, ◌%◌, Bool, false, not, ◌&&◌, ◌||◌, Option, none, some, List, [], ◌∷◌, ◌++◌, ltb,
  ◌==◌, within, if◌then◌else◌, length, take, drop, all, keep,
}
use kd_server.Text.{Text, codes, same, trim_space, Casing, to_lower, has_prefix, replace}
use kd_server.Extraction.Regex.{Regex, one, many, maybe, start, seq, alt, Match, find_match}
use kd_server.Extraction.Words.{fields, join_words, index, trim_marks}
use kd_server.Asset.Number.{split}
use kd_server.Format.{ℤ, pos, negsuc, atoi, decimal, digits}

abbrev pub is_letter : ℕ → Bool
is_letter c = within b'A' b'Z' c || within b'a' b'z' c

abbrev pub is_name_char : ℕ → Bool
is_name_char c = is_letter c || c == b'\'' || c == b' ' || c == b'-'

abbrev starts_with_letter : Text → Bool
starts_with_letter [] = false
starts_with_letter (c ∷ s) = is_letter c

-- `^[A-Za-z][A-Za-z' -]{2,79}$`
unfoldable pub is_name_text : Text → Bool
is_name_text s = starts_with_letter s && all is_name_char s && within 3 80 (length s)

unfoldable pub clean_english_name : Text → Text
unfolding is_name_text fields join_words
clean_english_name value =
    let s = trim_space value in
    if is_name_text s && within 2 5 (length (fields s)) then join_words (fields s) else []

abbrev is_address_char : ℕ → Bool
is_address_char c =
    is_letter c || within b'0' b'9' c || c == b'.' || c == b'\'' || c == b' ' || c == b'-'

-- The tests behind `allowed`: all characters are ASCII then, of one byte each.
unfoldable pub clean_english_address : Text → Text
unfolding fields join_words
clean_english_address value =
    let s = trim_space value in
    if not (all is_address_char s && within 3 100 (length s))
    then []
    else if ltb (length (keep is_letter s)) (length s / 2)
    then []
    else join_words (fields s)

module _ ⦃u : Casing⦄ where
  -- From the lines of the text.
  unfoldable pub tagged_line : Text → List Text → Text
  unfolding has_prefix
  tagged_line prefix [] = []
  tagged_line prefix (l ∷ ls) =
      let rest = tagged_line prefix ls in
      let line = trim_space l in
      if has_prefix prefix (to_lower line) then trim_space (drop (length prefix) line) else rest

  unfoldable pub tagged_value : Text → Text → Text
  unfolding tagged_line split
  tagged_value text tag = tagged_line (tag ++ b':' ∷ []) (split b'\n' text)

  abbrev earlier : Option ℕ → ℕ → ℕ
  earlier none end = end
  earlier (some n) end = if ltb n end then n else end

  -- `end`, behind the loop over the stop labels.
  unfoldable pub end_at : Text → List Text → ℕ → ℕ
  unfolding index
  end_at lower_value [] end = end
  end_at lower_value (stop ∷ stops) end =
      end_at lower_value stops (earlier (index (to_lower stop) lower_value) end)

  -- The words in front of the first stop label, at most so many.
  unfoldable pub words_until : Text → List Text → ℕ → Text
  unfolding end_at fields join_words
  words_until value stops max_words = join_words (
      take max_words
        (fields (trim_space (take (end_at (to_lower value) stops (length value)) value))))

  abbrev behind_label : Text → Text → List Text → ℕ → Option ℕ → Text
  behind_label text label stops max_words none = []
  behind_label text label stops max_words (some n) =
      words_until (trim_marks (trim_space (drop (n + length label) text))) stops max_words

  unfoldable pub text_after_label : Text → Text → List Text → ℕ → Text
  unfolding words_until trim_marks index
  text_after_label text label stops max_words =
      behind_label text label stops max_words (index (to_lower label) (to_lower text))

-- `\s` is narrower than `unicode.IsSpace`.
abbrev pub is_blank_char : ℕ → Bool
is_blank_char c = c == 9 || c == 10 || c == 12 || c == 13 || c == 32

-- A character of a label, without regard to its case; no letter beyond ASCII folds to one of "Name".
abbrev pub fold : ℕ → ℕ
fold c = if within b'A' b'Z' c then c + 32 else c

abbrev label_then : Text → Regex → Regex
label_then [] r = r
label_then (c ∷ s) r = seq (one (λ d. fold d == fold c)) (label_then s r)

-- `(?i)(?:^|\s)` label `\s*[:;-]?\s+`
abbrev pub label_pattern : Text → Regex
label_pattern label = seq (alt start (one is_blank_char)) (
    label_then label (
      seq (many is_blank_char) (
        seq (maybe (λ c. c == b':' || c == b';' || c == b'-'))
          (seq (one is_blank_char) (many is_blank_char)))))

module _ ⦃u : Casing⦄ where
  abbrev behind_match : List Text → ℕ → Option Match → Text
  behind_match stops max_words none = []
  behind_match stops max_words (some m) = words_until (trim_space m.rest) stops max_words

  unfoldable pub text_after_standalone_label : Text → Text → List Text → ℕ → Text
  unfolding find_match words_until
  text_after_standalone_label text label stops max_words =
      behind_match stops max_words (find_match (label_pattern label) none text)

-- %02d of a number that is not negative.
abbrev pad2 : ℕ → Text
pad2 n = if ltb n 100 then (b'0' + n / 10) ∷ (b'0' + n % 10) ∷ [] else decimal n

abbrev pad2_int : ℤ → Text
pad2_int (pos n) = pad2 n
pad2_int (negsuc n) = b'-' ∷ decimal (suc n)

abbrev dated : Text → Option ℤ → Option ℤ → Text
dated year (some month) (some day) = year ++ b'-' ∷ (pad2_int month ++ b'-' ∷ pad2_int day)
dated year _ _ = []

-- The three groups of a date lie between its separators, which no group has.
unfoldable pub iso_date_parts : List Text → Text
unfolding atoi digits
iso_date_parts (day ∷ month ∷ year ∷ []) = dated year (atoi month) (atoi day)
iso_date_parts _ = []

unfoldable pub iso_date : Text → Text
unfolding iso_date_parts split replace
iso_date matched = iso_date_parts (split b'-' (replace b'/' b'-' matched))

module _ ⦃u : Casing⦄ where
  abbrev by_type : Text → Text
  by_type kind =
      if same kind (codes "application/pdf")
      then codes ".pdf"
      else if same kind (codes "image/png")
      then codes ".png"
      else codes ".jpg"

  abbrev first_part : List Text → Text
  first_part [] = []
  first_part (p ∷ ps) = p

  unfoldable pub extension_for_content_type : Text → Text
  unfolding split
  extension_for_content_type content_type =
      by_type (to_lower (trim_space (first_part (split b';' content_type))))
