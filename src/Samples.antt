-- ===== src/Samples.antt =====
-- What the tests run on: concrete values for the parameters of the model.
use kd_server.Common.{ℕ, zero, suc, ◌%◌, ◌+◌, List, [], ◌∷◌, All, refl, arith}
use kd_server.Text.{Text, Casing}
use kd_server.Text.Encode.{IsByte}
use kd_server.Time.{Time}
use kd_server.Tenant.{Digest}
use kd_server.Tenant.Keys.Issue.{IsSha256}

-- Letters beyond ASCII have no case.
instance abbrev pub plain_casing : Casing
plain_casing = record { lower = λ c. c; upper = λ c. c }

abbrev sum : Text → ℕ
sum [] = 0
sum (c ∷ s) = (c + sum s) % 256

abbrev replicate : ℕ → ℕ → List ℕ
replicate zero b = []
replicate (suc n) b = b ∷ replicate n b

-- A digest of the right form: the sum of the code points, 32 times.
instance abbrev pub toy_digest : Digest
toy_digest = record { sum256 = λ t. replicate 32 (sum t) }

sum-IsByte : (t : Text) → IsByte (sum t)
sum-IsByte [] = omega arith
sum-IsByte (c ∷ t) = omega arith

pub toy_digest-IsSha256 : IsSha256 toy_digest
toy_digest-IsSha256 = record { size = λ t. refl; bytes = λ t. replicate-All 32 t }
  where
    replicate-All : (n : ℕ) (t : Text) → All IsByte (replicate n (sum t))
    replicate-All zero t = tt
    replicate-All (suc n) t = (sum-IsByte t, replicate-All n t)

abbrev pub noon : Time
noon = record { year = 2026; month = 3; day = 1; nanos = 43200000000000 }
