-- ===== src/Common/Results.antt =====
-- Go's `(T, error)` results. An error is the text it was made of and what it wraps.
use Prim.Native.String.{String}
use Prim.Native.Nat.{ℕ}
use mathlib.Core.Path.{◌≡◌, refl}
use mathlib.Core.Logic.{◌⊎◌, inl, inr}
use mathlib.Core.Bool.{Bool, true, false}
use mathlib.Core.List.{List}

-- `no_documents` is `mongo.ErrNoDocuments`, `duplicate_key` what `mongo.IsDuplicateKeyError` tests,
-- `fault` any other error of a library; `message` is `errors.New`, `about` a message that quotes a
-- text (`%q`, `%s`), and `wrap` is `fmt.Errorf` with `%w` or `%v`.
pub data Error : Type 0 where
  no_documents duplicate_key : Error
  fault : ℕ → Error
  message : String → Error
  about : String → List ℕ → Error
  wrap : String → Error → Error

-- A value or an error.
pub data Result {ℓ} (T : Type ℓ) : Type ℓ where
  ok : T → Result T
  err : Error → Result T

-- `errors.Is(err, mongo.ErrNoDocuments)`.
abbrev pub is_no_documents : Error → Bool
is_no_documents no_documents = true
is_no_documents (wrap _ e) = is_no_documents e
is_no_documents _ = false

abbrev pub is_ok {ℓ} : {T : Type ℓ} → Result T → Bool
is_ok (ok _) = true
is_ok (err _) = false

-- `if cond { return err }`: goes on where the test passes.
abbrev pub guard : Bool → Error → Result (Unit {0})
guard test failure = elim test [ true ↦ ok tt | false ↦ err failure ]

infixl 5 ◌>>=◌
abbrev pub ◌>>=◌ {ℓ κ} : {S : Type ℓ} {T : Type κ} → Result S → (S → Result T) → Result T
(ok value) >>= next = next value
(err failure) >>= next = err failure

infixl 5 ◌>>◌
abbrev pub ◌>>◌ {ℓ} : {T : Type ℓ} → Result (Unit {0}) → Result T → Result T
first >> second = first >>= λ done. second

pub Result-cases {ℓ} :
    {T : Type ℓ} (r : Result T) → ((t : T) × (r ≡ ok t)) ⊎ ((e : Error) × (r ≡ err e))
Result-cases (ok t) = inl (t, refl)
Result-cases (err e) = inr (e, refl)
