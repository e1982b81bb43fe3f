-- ===== src/Extraction/Parse.antt =====
-- `parseIdentityText`, field by field in the order of the source.
pub mod Shapes
pub mod Laws
use kd_server.Common.{
  ℕ, zero, suc, ◌+◌, ◌-◌, ◌*◌, ◌/◌, ◌%◌, ◌^◌, ◌≤◌, ◌<◌, String, ◌≡◌, refl, sym, ap, ◌∙◌, ◌≢◌, ◌↔◌,
  ◌⊎◌, inl, inr, Bool, true, false, not, ◌&&◌, ◌||◌, Option, none, some, List, [], ◌∷◌, ◌++◌, map,
  Memᴰ, arith, ltb, leb, ◌==◌, ==_iff, within, if◌then◌else◌, Bool-cases, Option-cases,
  Result-cases, length, take, drop, any, all, keep, length-append, All, All-append, All-map,
  All-mem, Result, ok, err, Error, message, about, wrap, fault, no_documents, duplicate_key,
  is_no_documents,
}
use kd_server.Text.{
  Text, codes, same, is_empty, is_blank, is_space, trim_space, Casing, to_lower, to_upper,
  has_prefix, trim_prefix, cut, same_iff, same_refl, remove,
}
use kd_server.Extraction.Regex.{
  Regex, one, many, maybe, start, boundary, seq, alt, is_word, or_try, run, Match, find_match,
  find_string, match_string, find_two, times,
}
use kd_server.Extraction.Words.{fields, join_words, index, contains, trim_marks}
use kd_server.Extraction.Fields.{
  is_letter, is_name_char, is_name_text, is_blank_char, fold, clean_english_name,
  clean_english_address, tagged_value, text_after_label, text_after_standalone_label, iso_date,
}
use kd_server.Asset.{Float}

-- The product and the built-in `min` of two `float64`.
pub record FloatOps : Type 0 where
  pub product : Float → Float → Float
  pub minimum : Float → Float → Float

pub record DocumentExtraction : Type 0 where
  pub engine : Text
  pub pages_processed : ℕ
  pub raw_text : Text
  pub national_id : Text
  pub name_english : Text
  pub name_dhivehi : Text
  pub sex : Text
  pub date_of_birth : Text
  pub house_english : Text
  pub house_dhivehi : Text
  pub island_english : Text
  pub island_dhivehi : Text
  pub common_name : Text
  pub blood_group : Text
  pub expiry_date : Text
  pub serial_number : Text
  pub field_confidence : List (Text × Float)
  pub warnings : List Text

-- `m[key] = v`
unfoldable pub put_confidence : Text → Float → List (Text × Float) → List (Text × Float)
put_confidence key v [] = (key, v) ∷ []
put_confidence key v ((k, w) ∷ m) =
    let rest = put_confidence key v m in if same k key then (key, v) ∷ m else (k, w) ∷ rest

-- The constants 0.95, 0.9, 0.85, 0.75 and 0.65.
abbrev c95 : Float
c95 = 4606732058837280358

abbrev c90 : Float
c90 = 4606281698874543309

abbrev c85 : Float
c85 = 4605831338911806259

abbrev c75 : Float
c75 = 4604930618986332160

abbrev c65 : Float
c65 = 4604029899060858061

abbrev digit_class : ℕ → Bool
digit_class c = within b'0' b'9' c

-- `(?i)[A-Z]`: without regard to case, also the long s and the Kelvin sign.
abbrev pub any_case_letter : ℕ → Bool
any_case_letter c = is_letter c || c == 0x17F || c == 0x212A

-- `(?i)\b[A-Z]\s*\d{6}\b`
abbrev pub national_id_pattern : Regex
national_id_pattern =
    seq boundary
      (seq (one any_case_letter) (seq (many is_blank_char) (times 6 (one digit_class) boundary)))

abbrev date_mark : ℕ → Bool
date_mark c = c == b'-' || c == b'/'

abbrev char : ℕ → Regex
char c = one (λ d. d == c)

-- `\b([0-3]?\d)[-/]([01]?\d)[-/]((?:19|20)\d{2})\b`
abbrev pub date_pattern : Regex
date_pattern = seq boundary (
    seq (maybe (λ c. within b'0' b'3' c)) (
      seq (one digit_class) (
        seq (one date_mark) (
          seq (maybe (λ c. within b'0' b'1' c)) (
            seq (one digit_class) (
              seq (one date_mark) (
                seq (alt (seq (char b'1') (char b'9')) (seq (char b'2') (char b'0')))
                  (times 2 (one digit_class) boundary))))))))

-- `\bF\b`, and `\bSEX\s*[:\-]?\s*F\b`.
abbrev pub alone : ℕ → Regex
alone c = seq boundary (seq (char c) boundary)

abbrev pub sex_label : ℕ → Regex
sex_label c = seq boundary (
    seq (char b'S') (
      seq (char b'E') (
        seq (char b'X') (
          seq (many is_blank_char) (
            seq (maybe (λ d. d == b':' || d == b'-'))
              (seq (many is_blank_char) (seq (char c) boundary)))))))

abbrev any_case : ℕ → Regex
any_case c = one (λ d. fold d == fold c)

-- `(?i)\b(?:A|B|AB|O)\s*[+-]`
abbrev pub blood_pattern : Regex
blood_pattern = seq boundary (
    seq
      (alt (any_case b'A')
        (alt (any_case b'B') (alt (seq (any_case b'A') (any_case b'B')) (any_case b'O'))))
      (seq (many is_blank_char) (one (λ c. c == b'+' || c == b'-'))))

-- `(?i)\bSN\s*\d{5,12}\b`, where the long s counts as an s.
abbrev pub serial_pattern : Regex
serial_pattern = seq boundary (
    seq (one (λ d. fold d == b's' || d == 0x17F)) (
      seq (any_case b'N') (
        seq (many is_blank_char)
          (times 5 (one digit_class) (times 7 (maybe digit_class) boundary)))))

-- `if value == "" { value = … }`
abbrev pub or_text : Text → Text → Text
or_text [] other_text = other_text
or_text (c ∷ s) other_text = c ∷ s

-- `result`, in front of the first field.
abbrev pub blank_extraction : Text → DocumentExtraction
blank_extraction raw_text = record {
  engine = [];
  pages_processed = 0;
  raw_text = trim_space raw_text;
  national_id = [];
  name_english = [];
  name_dhivehi = [];
  sex = [];
  date_of_birth = [];
  house_english = [];
  house_dhivehi = [];
  island_english = [];
  island_dhivehi = [];
  common_name = [];
  blood_group = [];
  expiry_date = [];
  serial_number = [];
  field_confidence = [];
  warnings = [];
}

abbrev with_confidence : Text → Float → DocumentExtraction → DocumentExtraction
with_confidence key v x = record x { field_confidence = put_confidence key v x.field_confidence }

module _ ⦃u : Casing⦄ where
  -- `strings.ToUpper(strings.ReplaceAll(match, " ", ""))`
  abbrev pub compact : Text → Text
  compact s = to_upper (remove b' ' s)

  abbrev pub stop_name : List Text
  stop_name = codes "Sex" ∷ codes "Date of Birth" ∷ codes "Address" ∷ []

  abbrev pub stop_common : List Text
  stop_common = codes "Blood Group" ∷ codes "Expires on" ∷ codes "Expiry Date" ∷ []

  abbrev pub stop_address : List Text
  stop_address = codes "Blood Group" ∷ codes "Expiry Date" ∷ codes "Common Name" ∷ []

  -- `isBack`
  unfoldable pub is_back : Text → Bool
  unfolding contains
  is_back normalized =
      contains (to_lower normalized) (codes "common name")
      || contains (to_lower normalized) (codes "blood group")
      || contains (to_lower normalized) (codes "expires on")

  -- `classifyIdentityCardSide`: whether it is the back.
  unfoldable pub classifies_back : Text → Bool
  unfolding contains
  classifies_back text =
      let lower = to_lower text in
      contains lower (codes "common name")
      || contains lower (codes "blood group")
      || contains lower (codes "finger print")
      || contains lower (codes "expires on")

  module _ ⦃f : FloatOps⦄ (confidence : Float) where
    -- A match of the tagged value first, then one of the whole text.
    unfoldable pub with_national_id : Text → Text → DocumentExtraction → DocumentExtraction
    unfolding find_string remove put_confidence
    with_national_id tagged normalized x =
        if not (is_empty (find_string national_id_pattern tagged))
        then with_confidence (codes "national_id") (f.minimum c95 confidence)
            (record x { national_id = compact (find_string national_id_pattern tagged) })
        else if not (is_empty (find_string national_id_pattern normalized))
        then with_confidence (codes "national_id") confidence
            (record x { national_id = compact (find_string national_id_pattern normalized) })
        else x

    unfoldable pub with_tagged_birth : Text → DocumentExtraction → DocumentExtraction
    unfolding iso_date find_string put_confidence
    with_tagged_birth tagged x =
        if is_empty (find_string date_pattern tagged)
        then x
        else with_confidence (codes "date_of_birth") (f.minimum c90 confidence)
            (record x { date_of_birth = iso_date (find_string date_pattern tagged) })

    unfoldable pub with_tagged_expiry : Text → DocumentExtraction → DocumentExtraction
    unfolding iso_date find_string put_confidence
    with_tagged_expiry tagged x =
        if is_empty (find_string date_pattern tagged)
        then x
        else with_confidence (codes "expiry_date") (f.minimum c95 confidence)
            (record x { expiry_date = iso_date (find_string date_pattern tagged) })

    abbrev pub with_birth : Text → DocumentExtraction → DocumentExtraction
    with_birth date x =
        with_confidence (codes "date_of_birth") confidence
          (record x { date_of_birth = iso_date date })

    abbrev pub with_expiry : Text → DocumentExtraction → DocumentExtraction
    with_expiry date x =
        with_confidence (codes "expiry_date") confidence (record x { expiry_date = iso_date date })

    -- The dates of the whole text, at most two.
    unfoldable pub with_dates : (back : Bool) → List Text → DocumentExtraction → DocumentExtraction
    unfolding iso_date put_confidence
    with_dates back [] x = x
    with_dates back (d ∷ []) x =
        if back
        then (if is_empty x.expiry_date then with_expiry d x else x)
        else if is_empty x.date_of_birth
        then with_birth d x
        else x
    with_dates back (d ∷ e ∷ ds) x =
        let y = if not back && is_empty x.date_of_birth then with_birth d x else x in
        if is_empty y.expiry_date then with_expiry e y else y

    unfoldable pub with_sex : Text → Text → DocumentExtraction → DocumentExtraction
    unfolding match_string put_confidence
    with_sex tagged upper x =
        if match_string (alone b'F') tagged || match_string (sex_label b'F') upper
        then with_confidence (codes "sex") confidence (record x { sex = codes "F" })
        else if match_string (alone b'M') tagged || match_string (sex_label b'M') upper
        then with_confidence (codes "sex") confidence (record x { sex = codes "M" })
        else x

    unfoldable pub with_name : (back : Bool) → Text → Text → DocumentExtraction → DocumentExtraction
    unfolding clean_english_name text_after_standalone_label put_confidence
    with_name back raw_text normalized x =
        if back
        then x
        else let found = clean_english_name (
            or_text (clean_english_name (tagged_value raw_text (codes "name_english")))
              (text_after_standalone_label normalized (codes "Name") stop_name 5)) in
          if is_empty found
          then record x { name_english = [] }
          else with_confidence (codes "name_english") (f.product confidence c85)
              (record x { name_english = found })

    unfoldable pub with_common_name : Text → Text → DocumentExtraction → DocumentExtraction
    unfolding clean_english_name text_after_label put_confidence
    with_common_name raw_text normalized x =
        let found = clean_english_name (
          or_text (clean_english_name (tagged_value raw_text (codes "common_name_english")))
            (text_after_label normalized (codes "Common Name") stop_common 5)) in
        let y =
          with_confidence (codes "common_name_english") (f.product confidence c85)
            (record x { common_name = found }) in
        if is_empty found
        then record x { common_name = [] }
        else if is_empty x.name_english
        then with_confidence (codes "name_english") (f.product confidence c75)
            (record y { name_english = found })
        else y

    unfoldable pub with_blood_group : Text → DocumentExtraction → DocumentExtraction
    unfolding find_string remove put_confidence
    with_blood_group source x =
        let found = find_string blood_pattern source in
        if is_empty found
        then x
        else with_confidence (codes "blood_group") confidence
            (record x { blood_group = remove b' ' (to_upper found) })

    unfoldable pub with_serial : Text → DocumentExtraction → DocumentExtraction
    unfolding find_string remove put_confidence
    with_serial source x =
        let found = find_string serial_pattern source in
        if is_empty found
        then x
        else with_confidence (codes "serial_number") confidence
            (record x { serial_number = compact found })

    -- The first half of the words is the house, the others are the island.
    unfoldable pub with_address : Text → DocumentExtraction → DocumentExtraction
    unfolding fields join_words put_confidence
    with_address address x =
        let words = fields address in
        let half = length words / 2 in
        let y =
          if leb 2 (length words)
          then record x {
            house_english = join_words (take half words);
            island_english = join_words (drop half words);
          }
          else record x { house_english = address } in
        if is_empty address
        then x
        else with_confidence (codes "address_english") (f.product confidence c65) y

  abbrev warned : Bool → String → List Text → List Text
  warned true m ws = ws ++ codes m ∷ []
  warned false m ws = ws

  unfoldable pub with_warnings : DocumentExtraction → DocumentExtraction
  with_warnings x = record x {
    warnings =
        warned (is_empty x.name_english) "English name was not detected automatically."
          (warned (is_empty x.national_id) "National ID was not detected automatically." x.warnings)
        ++ codes "Review every field against the original document before saving." ∷ [];
  }

  -- The address: a tagged value, or the text behind the label.
  unfoldable pub address_of : Text → Text → Text
  unfolding clean_english_address text_after_label
  address_of raw_text normalized =
      let tagged = tagged_value raw_text (codes "address_english") in
      clean_english_address (
        if is_empty tagged
        then text_after_label normalized (codes "Address") stop_address 8
        else tagged)

  unfoldable pub parse_identity_text : ⦃f : FloatOps⦄ → Text → Float → DocumentExtraction
  unfolding with_national_id with_tagged_birth with_tagged_expiry with_dates with_sex with_name
      with_common_name with_blood_group with_serial with_address with_warnings address_of is_back
      fields join_words find_two tagged_value
  parse_identity_text raw_text confidence =
      let normalized = join_words (fields raw_text) in
      let x1 =
        with_national_id confidence (tagged_value raw_text (codes "national_id")) normalized
          (blank_extraction raw_text) in
      let x2 = with_tagged_birth confidence (tagged_value raw_text (codes "date_of_birth")) x1 in
      let x3 = with_tagged_expiry confidence (tagged_value raw_text (codes "expiry_date")) x2 in
      let x4 = with_dates confidence (is_back normalized) (find_two date_pattern normalized) x3 in
      let x5 =
        with_sex confidence (to_upper (tagged_value raw_text (codes "sex"))) (to_upper normalized)
          x4 in
      let x6 = with_name confidence (is_back normalized) raw_text normalized x5 in
      let x7 = with_common_name confidence raw_text normalized x6 in
      let x8 =
        with_blood_group confidence
          (tagged_value raw_text (codes "blood_group") ++ b' ' ∷ normalized) x7 in
      let x9 =
        with_serial confidence (tagged_value raw_text (codes "serial_number") ++ b' ' ∷ normalized)
          x8 in
      with_warnings (with_address confidence (address_of raw_text normalized) x9)
