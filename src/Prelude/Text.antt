-- ===== src/Prelude/Text.antt =====
-- Go strings: native texts with a decidable equality, concatenation and `strconv.Itoa`.
use Prim.Native.Nat.{ℕ, zero, suc, ◌/◌, ◌%◌}
use Prim.Native.String.{String, ◌++◌}
use mathlib.Core.Path.{◌≡◌, refl}
use mathlib.Core.Logic.{inl, inr}
use mathlib.Core.Bool.{false}
use text.Mathlib.Text.{◌==◌}
use text.Mathlib.TextEquality.{eq_iff}
use ryan_cache.Prelude.Tests.{Bool-cases, ltb, if◌then◌else◌}

-- `a == b` on strings, as a decision.
unfoldable pub String_discrete : Discrete String
unfolding Bool-cases
String_discrete s t = elim (Bool-cases (s == t)) [
  | inl e ↦ yes ((eq_iff s t).0 e)
  | inr e ↦ no (λ p. differ s t e p)
]
  where
    differ : (s t : String) → (s == t) ≡ false → s ≡ t → ⊥
    differ s t e p = cc ((eq_iff s t).1 p)

abbrev pub concat : String → String → String
concat s t = s ++ t

-- The last decimal digit.
abbrev digit : ℕ → String
digit zero = "0"
digit (suc zero) = "1"
digit (suc (suc zero)) = "2"
digit (suc (suc (suc zero))) = "3"
digit (suc (suc (suc (suc zero)))) = "4"
digit (suc (suc (suc (suc (suc zero))))) = "5"
digit (suc (suc (suc (suc (suc (suc zero)))))) = "6"
digit (suc (suc (suc (suc (suc (suc (suc zero))))))) = "7"
digit (suc (suc (suc (suc (suc (suc (suc (suc zero)))))))) = "8"
digit other = "9"

unfoldable pub itoa_digits : ℕ → ℕ → String
itoa_digits zero n = ""
itoa_digits (suc fuel) n =
    let rest = itoa_digits fuel (n / 10) in
    if ltb n 10 then digit n else concat rest (digit (n % 10))

-- `strconv.Itoa` of a number that is not negative; `n` has no more than `n + 1` digits.
unfoldable pub itoa : ℕ → String
unfolding itoa_digits
itoa n = itoa_digits (suc n) n

itoa_lem : itoa 0 ≡ "0" × itoa 149 ≡ "149"
unfolding itoa
itoa_lem = (refl, refl)
