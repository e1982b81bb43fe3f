-- ===== src/Format.antt =====
-- What the program uses of Go's `strconv` and `fmt`: `strconv.Atoi`, and the verbs %d and %04d.
pub mod Laws
use kd_server.Common.{
  false, ℕ, zero, suc, ◌+◌, ◌-◌, ◌*◌, ◌/◌, ◌%◌, Bool, Option, none, some, List, [], ◌∷◌, ◌++◌, ltb,
  leb, ◌==◌, if◌then◌else◌,
}
use kd_server.Text.{Text}
use kd_server.Time.{is_digit}

-- An `int`: `pos n` is n, `negsuc n` is -(n + 1).
pub data ℤ : Type 0 where
  pos negsuc : ℕ → ℤ

-- The first number beyond an `int`, 2 ^ 63.
abbrev pub int_end : ℕ
int_end = 9223372036854775808

-- `z + 1`, with the overflow of an `int`.
unfoldable pub next_int : ℤ → ℤ
next_int (pos n) = if suc n == int_end then negsuc (int_end - 1) else pos (suc n)
next_int (negsuc zero) = pos zero
next_int (negsuc (suc n)) = negsuc n

abbrev pub digit : ℕ → ℕ
digit n = b'0' + n % 10

-- The digits of n in front of a text; each step needs one of the fuel, and n + 1 are enough.
unfoldable pub digits : ℕ → ℕ → Text → Text
digits zero n s = s
digits (suc fuel) n s =
    let rest = digits fuel (n / 10) (digit n ∷ s) in if ltb n 10 then digit n ∷ s else rest

-- %d of a number that is not negative.
abbrev pub decimal : ℕ → Text
decimal n = digits (suc n) n []

-- %03d and %04d of a number that is not negative.
unfoldable pub pad3 : ℕ → Text
unfolding digits
pad3 n = if ltb n 1000 then digit (n / 100) ∷ digit (n / 10) ∷ digit n ∷ [] else decimal n

unfoldable pub pad4 : ℕ → Text
unfolding digits
pad4 n =
    if ltb n 10000
    then digit (n / 1000) ∷ digit (n / 100) ∷ digit (n / 10) ∷ digit n ∷ []
    else decimal n

-- %04d; the sign takes one of the four places.
unfoldable pub format_04d : ℤ → Text
unfolding pad3 pad4
format_04d (pos n) = pad4 n
format_04d (negsuc n) = b'-' ∷ pad3 (suc n)

unfoldable pub digits_value : ℕ → Text → Option ℕ
unfolding is_digit
digits_value acc [] = some acc
digits_value acc (c ∷ s) =
    let rest = digits_value (acc * 10 + (c - b'0')) s in if is_digit c then rest else none

abbrev pub unsigned : Text → Option ℕ
unsigned [] = none
unsigned (c ∷ s) = digits_value 0 (c ∷ s)

abbrev pub positive : Option ℕ → Option ℤ
positive none = none
positive (some n) = if ltb n int_end then some (pos n) else none

abbrev pub negative : Option ℕ → Option ℤ
negative none = none
negative (some zero) = some (pos zero)
negative (some (suc n)) = if ltb n int_end then some (negsuc n) else none

-- `strconv.Atoi`: a sign, if any, and digits, in the range of an `int`.
unfoldable pub atoi : Text → Option ℤ
unfolding digits_value
atoi [] = none
atoi (c ∷ s) =
    if c == b'-'
    then negative (unsigned s)
    else if c == b'+'
    then positive (unsigned s)
    else positive (unsigned (c ∷ s))
