-- ===== src/Text/Encode.antt =====
-- `encoding/hex` and `base64.RawURLEncoding`, on lists of bytes.
use kd_server.Common.{
  ℕ, ◌+◌, ◌-◌, ◌*◌, ◌/◌, ◌%◌, ◌<◌, ◌≡◌, refl, false, Option, none, some, List, [], ◌∷◌, arith, ltb,
  ◌==◌, within, if◌then◌else◌, All,
}
use kd_server.Text.{Text, is_space}

abbrev pub IsByte : ℕ → Type 0
IsByte b = b < 256

unfoldable pub hex_digit : ℕ → ℕ
hex_digit n = if ltb n 10 then b'0' + n else b'a' + (n - 10)

-- `hex.EncodeToString`
unfoldable pub hex_encode : List ℕ → Text
hex_encode [] = []
hex_encode (b ∷ bs) = hex_digit (b / 16) ∷ hex_digit (b % 16) ∷ hex_encode bs

unfoldable pub hex_value : ℕ → Option ℕ
hex_value c =
    if within b'0' b'9' c
    then some (c - b'0')
    else if within b'a' b'f' c
    then some (c - b'a' + 10)
    else if within b'A' b'F' c
    then some (c - b'A' + 10)
    else none

abbrev hex_pair : Option ℕ → Option ℕ → Option (List ℕ) → Option (List ℕ)
hex_pair (some hi) (some lo) (some rest) = some ((hi * 16 + lo) ∷ rest)
hex_pair _ _ _ = none

-- `hex.DecodeString`; an odd number of digits is an error.
unfoldable pub hex_decode : Text → Option (List ℕ)
unfolding hex_value
hex_decode [] = some []
hex_decode (c ∷ []) = none
hex_decode (c ∷ d ∷ s) = hex_pair (hex_value c) (hex_value d) (hex_decode s)

hex_value-digit : (n : ℕ) → n < 16 → hex_value (hex_digit n) ≡ some n
unfolding hex_value hex_digit
hex_value-digit n h = ground arith

-- What is encoded is decoded again.
pub hex_decode-encode : (bs : List ℕ) → All IsByte bs → hex_decode (hex_encode bs) ≡ some bs
unfolding hex_decode hex_encode
hex_decode-encode [] h = refl
hex_decode-encode (b ∷ bs) (p, h) =
    rw
      (
        hex_value-digit (b / 16) (omega arith),
        hex_value-digit (b % 16) (omega arith),
        hex_decode-encode bs h,
      )
      (ground arith)

-- The 64 characters of `base64.RawURLEncoding`.
unfoldable pub base64_digit : ℕ → ℕ
base64_digit n =
    if ltb n 26
    then b'A' + n
    else if ltb n 52
    then b'a' + (n - 26)
    else if ltb n 62
    then b'0' + (n - 52)
    else if n == 62
    then b'-'
    else b'_'

-- `base64.RawURLEncoding.EncodeToString`
unfoldable pub base64_encode : List ℕ → Text
base64_encode [] = []
base64_encode (a ∷ []) = base64_digit (a / 4) ∷ base64_digit (a % 4 * 16) ∷ []
base64_encode (a ∷ b ∷ []) =
    base64_digit (a / 4) ∷ base64_digit (a % 4 * 16 + b / 16) ∷ base64_digit (b % 16 * 4) ∷ []
base64_encode (a ∷ b ∷ c ∷ bs) =
    base64_digit (a / 4)
    ∷ base64_digit (a % 4 * 16 + b / 16)
    ∷ base64_digit (b % 16 * 4 + c / 64)
    ∷ base64_digit (c % 64)
    ∷ base64_encode bs

-- A character of a token: not white space, and no dot.
abbrev pub IsTokenChar : ℕ → Type 0
IsTokenChar c = (is_space c ≡ false) × ((c == b'.') ≡ false)

base64_digit-IsTokenChar : (n : ℕ) → IsTokenChar (base64_digit n)
unfolding base64_digit is_space
base64_digit-IsTokenChar n = ground arith

pub base64_encode-IsTokenChar : (bs : List ℕ) → All IsTokenChar (base64_encode bs)
unfolding base64_encode
base64_encode-IsTokenChar [] = tt
base64_encode-IsTokenChar (a ∷ []) = (base64_digit-IsTokenChar _, (base64_digit-IsTokenChar _, tt))
base64_encode-IsTokenChar (a ∷ b ∷ []) =
    (base64_digit-IsTokenChar _, (base64_digit-IsTokenChar _, (base64_digit-IsTokenChar _, tt)))
base64_encode-IsTokenChar (a ∷ b ∷ c ∷ bs) = (
  base64_digit-IsTokenChar _,
  (
    base64_digit-IsTokenChar _,
    (base64_digit-IsTokenChar _, (base64_digit-IsTokenChar _, base64_encode-IsTokenChar bs)),
  ),
)
