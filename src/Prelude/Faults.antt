-- ===== src/Prelude/Faults.antt =====
-- Code that can stop: a value, or the fault that stops the program.
use Prim.Native.Nat.{ℕ, ◌-◌, ◌≤◌}
use mathlib.Core.Path.{◌≡◌, refl}
use native.Mathlib.Omega.{arith}
use ryan_cache.Prelude.Tests.{leb, if◌then◌else◌}

-- The run-time faults of the code, and the two ways out of the model: a number that would fall
-- below zero, and a loop that outlives its fuel.
pub data Fault : Type 0 where
  nil_deref nil_map nil_channel closed_channel bad_capacity index_range : Fault
  below_zero divide_by_zero out_of_fuel : Fault

pub data Result {ℓ} (A : Type ℓ) : Type ℓ where
  ok : A → Result A
  panic : Fault → Result A

-- `a - b` for a number that the code keeps in a signed integer and that must not become negative.
unfoldable pub subtract : ℕ → ℕ → Result ℕ
subtract a b = if leb b a then ok (a - b) else panic below_zero

infixl 5 ◌>>=◌
abbrev pub ◌>>=◌ {ℓ κ} : {A : Type ℓ} {B : Type κ} → Result A → (A → Result B) → Result B
ok a >>= f = f a
panic e >>= f = panic e

pub subtract_lem : (a b : ℕ) → b ≤ a → subtract a b ≡ ok (a - b)
unfolding subtract
subtract_lem a b h = ground arith

-- Where a chain ends with a value, its first part did.
pub ok_parts {ℓ κ} :
    {Mid : Type ℓ} {Last : Type κ} {last : Last} (first : Result Mid) (next : Mid → Result Last)
    (ends : (first >>= next) ≡ ok last)
    → (mid : Mid) × (first ≡ ok mid) × (next mid ≡ ok last)
ok_parts (panic fault) next ends = cc
ok_parts (ok mid) next ends = (mid, refl, ends)
