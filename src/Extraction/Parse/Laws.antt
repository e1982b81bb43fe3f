-- ===== src/Extraction/Parse/Laws.antt =====
-- What the fields of a parsed card look like.
use kd_server.Common.{
  refl, inl, inr, Bool, true, false, not, ◌&&◌, ◌||◌, List, [], ◌∷◌, ◌++◌, leb, if◌then◌else◌,
  Bool-cases, length,
}
use kd_server.Text.{Text, codes, is_empty, Casing, to_upper, remove}
use kd_server.Extraction.Regex.{find_string, match_string, find_two}
use kd_server.Extraction.Words.{fields, join_words}
use kd_server.Extraction.Fields.{
  clean_english_name, tagged_value, text_after_label, text_after_standalone_label,
}
use kd_server.Extraction.Parse.{
  FloatOps, DocumentExtraction, national_id_pattern, date_pattern, compact, is_back,
  with_national_id, with_tagged_birth, with_tagged_expiry, with_dates, with_sex, with_name,
  with_common_name, with_blood_group, with_serial, with_address, with_warnings, address_of,
  parse_identity_text, alone, sex_label, blood_pattern, serial_pattern, or_text, stop_name,
  stop_common, with_birth, with_expiry, blank_extraction,
}
use kd_server.Asset.{Float}
use kd_server.Extraction.Regex.Language.{find_string-Word}
use kd_server.Extraction.Parse.Shapes.{
  NationalId, WellFormed, clean_english_name-EnglishName, national-CardNumber,
}

module _ ⦃u : Casing⦄ where
  compact-NationalId : (s : Text) → NationalId (compact (find_string national_id_pattern s))
  unfolding remove
  compact-NationalId s = elim (find_string-Word national_id_pattern s) [
    | inl gone ↦ inl (rw gone refl)
    | inr word ↦ inr (find_string national_id_pattern s, national-CardNumber _ word, refl)
  ]

  module _ ⦃f : FloatOps⦄ (confidence : Float) where
    national-WellFormed :
        (tagged normalized : Text) (x : DocumentExtraction)
        → WellFormed x
        → WellFormed (with_national_id confidence tagged normalized x)
    unfolding with_national_id
    national-WellFormed tagged normalized x h =
        elim (Bool-cases (not (is_empty (find_string national_id_pattern tagged)))) [
          | inl e0 ↦ rw (e0) (record {
            national = compact-NationalId tagged;
            sex = h.sex;
            name = h.name;
            common = h.common;
          })
          | inr e0 ↦
              elim (Bool-cases (not (is_empty (find_string national_id_pattern normalized)))) [
                | inl e1 ↦
                    rw (e0, e1)
                      (record {
                        national = compact-NationalId normalized;
                        sex = h.sex;
                        name = h.name;
                        common = h.common;
                      })
                | inr e1 ↦ rw (e0, e1) (h)
              ]
        ]

    sex-WellFormed :
        (tagged upper : Text) (x : DocumentExtraction)
        → WellFormed x
        → WellFormed (with_sex confidence tagged upper x)
    unfolding with_sex
    sex-WellFormed tagged upper x h =
        elim (Bool-cases
          (match_string (alone b'F') tagged || match_string (sex_label b'F') upper)) [
            | inl e0 ↦ rw (e0) (record {
              national = h.national;
              sex = inr (inl refl);
              name = h.name;
              common = h.common;
            })
            | inr e0 ↦
                elim (Bool-cases
                  (match_string (alone b'M') tagged || match_string (sex_label b'M') upper)) [
                    | inl e1 ↦
                        rw (e0, e1)
                          (record {
                            national = h.national;
                            sex = inr (inr refl);
                            name = h.name;
                            common = h.common;
                          })
                    | inr e1 ↦ rw (e0, e1) (h)
                  ]
          ]

    birth-WellFormed :
        (tagged : Text) (x : DocumentExtraction)
        → WellFormed x
        → WellFormed (with_tagged_birth confidence tagged x)
    unfolding with_tagged_birth
    birth-WellFormed tagged x h = elim (Bool-cases (is_empty (find_string date_pattern tagged))) [
      | inl e0 ↦ rw (e0) (h)
      | inr e0 ↦
          rw (e0) (record { national = h.national; sex = h.sex; name = h.name; common = h.common })
    ]

    expiry-WellFormed :
        (tagged : Text) (x : DocumentExtraction)
        → WellFormed x
        → WellFormed (with_tagged_expiry confidence tagged x)
    unfolding with_tagged_expiry
    expiry-WellFormed tagged x h = elim (Bool-cases (is_empty (find_string date_pattern tagged))) [
      | inl e0 ↦ rw (e0) (h)
      | inr e0 ↦
          rw (e0) (record { national = h.national; sex = h.sex; name = h.name; common = h.common })
    ]

    dates-WellFormed :
        (back : Bool) (dates : List Text) (x : DocumentExtraction)
        → WellFormed x
        → WellFormed (with_dates confidence back dates x)
    unfolding with_dates
    dates-WellFormed back [] x h = h
    dates-WellFormed true (d ∷ []) x h = elim (Bool-cases (is_empty x.expiry_date)) [
      | inl y ↦
          rw y (record { national = h.national; sex = h.sex; name = h.name; common = h.common })
      | inr n ↦ rw n h
    ]
    dates-WellFormed false (d ∷ []) x h = elim (Bool-cases (is_empty x.date_of_birth)) [
      | inl y ↦
          rw y (record { national = h.national; sex = h.sex; name = h.name; common = h.common })
      | inr n ↦ rw n h
    ]
    dates-WellFormed back (d ∷ e ∷ ds) x h =
        elim (Bool-cases (not back && is_empty x.date_of_birth)) [
          | inl y ↦ rw y (
              second_date (with_birth confidence d x)
                (record { national = h.national; sex = h.sex; name = h.name; common = h.common }))
          | inr n ↦ rw n (second_date x h)
        ]
      where
        second_date :
            (z : DocumentExtraction)
            → WellFormed z
            → WellFormed (if is_empty z.expiry_date then with_expiry confidence e z else z)
        second_date z g = elim (Bool-cases (is_empty z.expiry_date)) [
          | inl y ↦
              rw y (record { national = g.national; sex = g.sex; name = g.name; common = g.common })
          | inr n ↦ rw n g
        ]

    name-WellFormed :
        (back : Bool) (raw_text normalized : Text) (x : DocumentExtraction)
        → WellFormed x
        → WellFormed (with_name confidence back raw_text normalized x)
    unfolding with_name
    name-WellFormed true raw_text normalized x h = h
    name-WellFormed false raw_text normalized x h =
        elim (Bool-cases (
          is_empty (
            clean_english_name (
              or_text (clean_english_name (tagged_value raw_text (codes "name_english")))
                (text_after_standalone_label normalized (codes "Name") stop_name 5))))) [
                  | inl y ↦ rw y (record {
                    national = h.national;
                    sex = h.sex;
                    name = inl refl;
                    common = h.common;
                  })
                  | inr n ↦ rw n (record {
                    national = h.national;
                    sex = h.sex;
                    name = clean_english_name-EnglishName _;
                    common = h.common;
                  })
                ]

    common-WellFormed :
        (raw_text normalized : Text) (x : DocumentExtraction)
        → WellFormed x
        → WellFormed (with_common_name confidence raw_text normalized x)
    unfolding with_common_name
    common-WellFormed raw_text normalized x h =
        elim (Bool-cases (
          is_empty (
            clean_english_name (
              or_text (clean_english_name (tagged_value raw_text (codes "common_name_english")))
                (text_after_label normalized (codes "Common Name") stop_common 5))))) [
                  | inl y ↦ rw y (record {
                    national = h.national;
                    sex = h.sex;
                    name = h.name;
                    common = inl refl;
                  })
                  | inr n ↦ elim (Bool-cases (is_empty x.name_english)) [
                    | inl y ↦
                        rw (n, y)
                          (record {
                            national = h.national;
                            sex = h.sex;
                            name = clean_english_name-EnglishName _;
                            common = clean_english_name-EnglishName _;
                          })
                    | inr m ↦
                        rw (n, m)
                          (record {
                            national = h.national;
                            sex = h.sex;
                            name = h.name;
                            common = clean_english_name-EnglishName _;
                          })
                  ]
                ]

    blood-WellFormed :
        (source : Text) (x : DocumentExtraction)
        → WellFormed x
        → WellFormed (with_blood_group confidence source x)
    unfolding with_blood_group
    blood-WellFormed source x h = elim (Bool-cases (is_empty (find_string blood_pattern source))) [
      | inl e0 ↦ rw (e0) (h)
      | inr e0 ↦
          rw (e0) (record { national = h.national; sex = h.sex; name = h.name; common = h.common })
    ]

    serial-WellFormed :
        (source : Text) (x : DocumentExtraction)
        → WellFormed x
        → WellFormed (with_serial confidence source x)
    unfolding with_serial
    serial-WellFormed source x h =
        elim (Bool-cases (is_empty (find_string serial_pattern source))) [
          | inl e0 ↦ rw (e0) (h)
          | inr e0 ↦
              rw (e0)
                (record { national = h.national; sex = h.sex; name = h.name; common = h.common })
        ]

    address-WellFormed :
        (address : Text) (x : DocumentExtraction)
        → WellFormed x
        → WellFormed (with_address confidence address x)
    unfolding with_address
    address-WellFormed address x h = elim (Bool-cases (is_empty address)) [
      | inl e0 ↦ rw (e0) (h)
      | inr e0 ↦ elim (Bool-cases (leb 2 (length (fields address)))) [
        | inl e1 ↦
            rw (e0, e1)
              (record { national = h.national; sex = h.sex; name = h.name; common = h.common })
        | inr e1 ↦
            rw (e0, e1)
              (record { national = h.national; sex = h.sex; name = h.name; common = h.common })
      ]
    ]

  warnings-WellFormed : (x : DocumentExtraction) → WellFormed x → WellFormed (with_warnings x)
  unfolding with_warnings
  warnings-WellFormed x h = record {
    national = h.national;
    sex = h.sex;
    name = h.name;
    common = h.common;
  }

  -- Whatever the recogniser read: the national id is empty, or a letter, possibly white space that is no
  -- space, and six digits, in upper case; the sex is empty, F or M; and each of the two names is empty, or
  -- two to five words of letters, apostrophes and hyphens with one space between them.
  pub parse_identity_text-WellFormed :
      ⦃f : FloatOps⦄ (raw_text : Text) (confidence : Float)
      → WellFormed (parse_identity_text raw_text confidence)
  unfolding parse_identity_text
  parse_identity_text-WellFormed raw_text confidence =
      let normalized : Text = join_words (fields raw_text) in
      let tag : Text → Text = tagged_value raw_text in
      let x0 : DocumentExtraction = blank_extraction raw_text in
      let h0 : WellFormed x0 = record {
        national = inl refl;
        sex = inl refl;
        name = inl refl;
        common = inl refl;
      } in
      let x1 = with_national_id confidence (tag (codes "national_id")) normalized x0 in
      let x2 = with_tagged_birth confidence (tag (codes "date_of_birth")) x1 in
      let x3 = with_tagged_expiry confidence (tag (codes "expiry_date")) x2 in
      let x4 = with_dates confidence (is_back normalized) (find_two date_pattern normalized) x3 in
      let x5 = with_sex confidence (to_upper (tag (codes "sex"))) (to_upper normalized) x4 in
      let x6 = with_name confidence (is_back normalized) raw_text normalized x5 in
      let x7 = with_common_name confidence raw_text normalized x6 in
      let blood : Text = tag (codes "blood_group") ++ b' ' ∷ normalized in
      let serial : Text = tag (codes "serial_number") ++ b' ' ∷ normalized in
      let x8 = with_blood_group confidence blood x7 in
      let x9 = with_serial confidence serial x8 in
      let h3 = expiry-WellFormed confidence (tag (codes "expiry_date")) x2 (
        birth-WellFormed confidence (tag (codes "date_of_birth")) x1
          (national-WellFormed confidence (tag (codes "national_id")) normalized x0 h0)) in
      let h5 = sex-WellFormed confidence (to_upper (tag (codes "sex"))) (to_upper normalized) x4 (
        dates-WellFormed confidence (is_back normalized) (find_two date_pattern normalized) x3
          h3) in
      let h7 =
        common-WellFormed confidence raw_text normalized x6
          (name-WellFormed confidence (is_back normalized) raw_text normalized x5 h5) in
      let h9 = serial-WellFormed confidence serial x8 (blood-WellFormed confidence blood x7 h7) in
      warnings-WellFormed (with_address confidence (address_of raw_text normalized) x9)
        (address-WellFormed confidence (address_of raw_text normalized) x9 h9)
