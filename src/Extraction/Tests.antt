-- ===== src/Extraction/Tests.antt =====
-- The two sides of a card, as the recogniser reads them.
use kd_server.Extraction.Parse.Shapes.{WellFormed}
use kd_server.Common.{◌≡◌, refl, [], ◌∷◌}
use kd_server.Text.{
  Text, codes, is_space, trim_space, has_prefix, lower_rune, upper_rune, replace, remove,
}
use kd_server.Extraction.Regex.{
  is_word, run, find_match, find_string, match_string, find_two, match_here, run_many, is_boundary,
}
use kd_server.Extraction.Words.{fields, join_words, index, contains, trim_marks}
use kd_server.Extraction.Fields.{
  is_name_text, clean_english_name, clean_english_address, tagged_value, text_after_label,
  text_after_standalone_label, iso_date, extension_for_content_type, tagged_line, words_until,
  end_at, iso_date_parts,
}
use kd_server.Extraction.Parse.{
  FloatOps, put_confidence, national_id_pattern, date_pattern, is_back, with_national_id,
  with_tagged_birth, with_tagged_expiry, with_dates, with_sex, with_name, with_common_name,
  with_blood_group, with_serial, with_address, with_warnings, address_of, parse_identity_text,
}
use kd_server.Samples.{plain_casing}
use kd_server.Extraction.Parse.Laws.{parse_identity_text-WellFormed}
use kd_server.Asset.Number.{split}
use kd_server.Format.{atoi, digits_value, digits}
use kd_server.Time.{is_digit}

code : Unit {0}
unfolding parse_identity_text with_national_id with_tagged_birth with_tagged_expiry with_dates
    with_sex with_name with_common_name with_blood_group with_serial with_address with_warnings
    address_of is_back fields join_words find_two find_match match_here run run_many is_boundary
    is_word tagged_value tagged_line split trim_space is_space lower_rune upper_rune has_prefix
    find_string match_string clean_english_name is_name_text clean_english_address text_after_label
    text_after_standalone_label words_until end_at index contains trim_marks iso_date iso_date_parts
    replace remove put_confidence atoi digits_value is_digit digits
code = tt

instance abbrev pub plain_floats : FloatOps
plain_floats = record { product = λ x y. x; minimum = λ x y. y }

abbrev front : Text
front = codes "A 123456 Name: Ali Mohamed Sex: M 12-03-1985"

find_tests :
    (find_string national_id_pattern (codes "ID A 123456.") ≡ codes "A 123456")
    × (find_string national_id_pattern (codes "A1234567") ≡ [])
    × (iso_date (find_string date_pattern (codes "on 5/11/2024")) ≡ codes "2024-11-05")
unfolding code
find_tests = (refl, refl, refl)

name_tests :
    (clean_english_name (codes "Ali  Mohamed") ≡ codes "Ali Mohamed")
    × (clean_english_name (codes "Ali") ≡ [])
    × (text_after_label
          (codes "x Common Name: Ali Didi Blood Group O+")
          (codes "Common Name")
          (codes "Blood Group" ∷ [])
          5
        ≡ codes "Ali Didi")
unfolding code
name_tests = (refl, refl, refl)

parse_tests :
    ((parse_identity_text front 1).national_id ≡ codes "A123456")
    × ((parse_identity_text front 1).name_english ≡ codes "Ali Mohamed")
    × ((parse_identity_text front 1).sex ≡ codes "M")
    × ((parse_identity_text front 1).date_of_birth ≡ codes "1985-03-12")
unfolding code
parse_tests = (refl, refl, refl, refl)

type_tests :
    (extension_for_content_type (codes " Image/PNG ; q=1") ≡ codes ".png")
    × (extension_for_content_type (codes "text/plain") ≡ codes ".jpg")
unfolding code extension_for_content_type
type_tests = (refl, refl)

parse_identity_text-WellFormed_example : WellFormed (parse_identity_text front 1)
parse_identity_text-WellFormed_example = parse_identity_text-WellFormed front 1
