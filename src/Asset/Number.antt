-- ===== src/Asset/Number.antt =====
-- Asset numbers, `{office}-{year}-{catNo}-{typeNumber}-{serialIncrement}`: `GenerateAssetNumber` of
-- internal/store/asset.go and `assetNoRegex` of internal/services/asset.go.
pub mod Form
pub mod Fresh
use kd_server.Common.{
  ℕ, zero, suc, ◌+◌, ◌-◌, ◌*◌, ◌/◌, ◌%◌, ◌^◌, ◌≤◌, ◌<◌, String, ◌≡◌, refl, sym, ap, ◌∙◌, ◌≢◌, ◌↔◌,
  ◌⊎◌, inl, inr, Bool, true, false, not, ◌&&◌, ◌||◌, Option, none, some, List, [], ◌∷◌, ◌++◌, map,
  Memᴰ, arith, ltb, leb, ◌==◌, ==_iff, within, if◌then◌else◌, Bool-cases, Option-cases,
  Result-cases, length, take, drop, any, all, keep, length-append, All, All-append, All-map,
  All-mem, Result, ok, err, Error, message, about, wrap, fault, no_documents, duplicate_key,
  is_no_documents,
}
use kd_server.Text.{
  Text, codes, same, is_empty, is_blank, is_space, trim_space, Casing, to_lower, to_upper,
  has_prefix, trim_prefix, cut, same_iff, same_refl, text_leb,
}
use kd_server.Mongo.{
  Action, after, ◌>>=◌, ◌>>◌, pure, raise, require, on_error, reading, writing, Query, page,
  Collection,
}
use kd_server.Mongo.Laws.{
  IsMongo, Updated, missed, hit, Unique, Unique-eq, after-eq-ok, require-eq-ok, on_error-eq-ok,
  IsOrder,
}
use kd_server.Asset.{
  Float, AssetApproval, Asset, AssetLink, AssetHistory, AssetQueryFilter, AssetIngestRecord,
  AssetIngestError, AssetIngestResult, Register,
}
use kd_server.Format.{ℤ, pos, negsuc, atoi, pad4, digit, format_04d, next_int}
use kd_server.Tenant.{ObjectId}
use kd_server.Time.{Time, is_zero, before, later_than}
use kd_server.Asset.Store.{nil_store}

-- The parts of a text between the separators.
unfoldable pub split : ℕ → Text → List Text
split sep [] = [] ∷ []
split sep (c ∷ s) =
    let rest = split sep s in
    if c == sep then [] ∷ rest else elim rest [ [] ↦ (c ∷ []) ∷ [] | w ∷ ws ↦ (c ∷ w) ∷ ws ]

abbrev pub upper_or_digit : ℕ → Bool
upper_or_digit c = within b'A' b'Z' c || within b'0' b'9' c

abbrev pub decimal_digit : ℕ → Bool
decimal_digit c = within b'0' b'9' c

-- `[A-Z0-9]{2,4}`, `\d{n}` and `(0[1-9]|290)`
abbrev pub is_office : Text → Bool
is_office s = within 2 4 (length s) && all upper_or_digit s

abbrev pub is_number : ℕ → Text → Bool
is_number n s = length s == n && all decimal_digit s

abbrev pub is_category : Text → Bool
is_category (a ∷ b ∷ []) = a == b'0' && within b'1' b'9' b
is_category s = same s (codes "290")

abbrev pub has_form : List Text → Bool
has_form (o ∷ y ∷ c ∷ t ∷ n ∷ []) =
    is_office o && is_number 4 y && is_category c && is_number 3 t && is_number 4 n
has_form _ = false

-- `assetNoRegex.MatchString(assetNo)`: no part has a hyphen.
unfoldable pub matches_asset_no : Text → Bool
unfolding split
matches_asset_no s = has_form (split b'-' s)

-- `fmt.Sprintf("%s-%04d-%s-%s-%04d", office, year, categoryNo, typeNumber, serial)`
unfoldable pub asset_number : Text → ℕ → Text → Text → ℤ → Text
asset_number office year category_no type_number serial =
    office
    ++ b'-'
      ∷ (pad4 year ++ b'-' ∷ (category_no ++ b'-' ∷ (type_number ++ b'-' ∷ format_04d serial)))

-- The assets that share a series of serials.
abbrev pub in_series : Text → Text → ℕ → Text → Text → Asset → Bool
in_series tenant office year category_no type_number a =
    same a.tenant_id tenant
    && same a.office office
    && a.year == year
    && same a.category_no category_no
    && same a.type_number type_number

abbrev pub parsed_serial : Text → Option ℤ → Result ℤ
parsed_serial serial none = err (about "store: parse serial increment" serial)
parsed_serial serial (some n) = ok (next_int n)

-- `nextSerial`, from what the query for the last asset returned.
unfoldable pub next_serial : Result Asset → Result ℤ
next_serial (ok last) = parsed_serial last.serial_increment (atoi last.serial_increment)
next_serial (err no_documents) = ok (pos 1)
next_serial (err e) = err (wrap "store: find last asset" e)

module _ {A : Type 0} (assets : Collection A Asset) where
  unfoldable pub generate_asset_number : Text → Text → Text → Text → ℕ → Action A Text
  unfolding next_serial
  generate_asset_number tenant office category_no type_number year = do
    require assets.configured nil_store
    serial ← λ s. (
      s,
      next_serial (
          assets.find_first
            (record {
              matches = in_series tenant office year category_no type_number;
              precedes = λ a b. text_leb b.serial_increment a.serial_increment;
              skip = 0;
              limit = 0;
            })
            s),
    )
    let asset_no = asset_number office year category_no type_number serial
    count ←
        reading (wrap "store: check asset number uniqueness")
          (assets.count (λ a. same a.asset_no asset_no))
    require (count == 0) (about "store: asset number already exists" asset_no)
    pure asset_no
