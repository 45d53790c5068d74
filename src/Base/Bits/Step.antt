-- ===== src/Base/Bits/Step.antt =====
-- The lowest binary digit of `&`, `|` and `^`. The native operations stand for a recursion on the
-- digits with fuel; these equations have no fuel.
use Prim.Native.Nat.{ℕ, zero, suc, ◌+◌, ◌-◌, ◌*◌, ◌/◌, ◌%◌, ◌≤◌, min, max, bit_and, bit_or, bit_xor}
use Prim.Native.Nat.{digits, bitwise, differ, bit_and-bitwise, bit_or-bitwise, bit_xor-bitwise}
use mathlib.Core.Path.{◌≡◌, refl, ◌∙◌, sym}
use native.Mathlib.Omega.{arith}

-- `on_zero` is the value at a left operand of 0, and `digit` the operation on two digits.
module _ (on_zero : ℕ → ℕ) (digit : ℕ → ℕ → ℕ) where
  digits-of_zero : (fuel y : ℕ) → digits on_zero digit fuel zero y ≡ on_zero y
  digits-of_zero zero y = refl
  digits-of_zero (suc fuel) y = refl

  -- Any fuel that covers the left operand gives the same digits.
  enough_fuel :
      (fuel fuel' x y : ℕ)
      → x ≤ fuel
      → x ≤ fuel'
      → digits on_zero digit fuel x y ≡ digits on_zero digit fuel' x y
  enough_fuel fuel fuel' zero y _ _ = digits-of_zero fuel y ∙ sym (digits-of_zero fuel' y)
  enough_fuel zero _ (suc x) y covers _ = absurd (omega arith)
  enough_fuel (suc fuel) zero (suc x) y _ covers = absurd (omega arith)
  enough_fuel (suc fuel) (suc fuel') (suc x) y covers covers' =
      rw (enough_fuel fuel fuel' (suc x / 2) (y / 2) (omega arith) (omega arith))

  -- The equation at 0 is a hypothesis on the two functions.
  lowest_digit :
      ((y : ℕ) → on_zero y ≡ on_zero (y / 2) * 2 + digit 0 (y % 2))
      → (x y : ℕ)
      → bitwise on_zero digit x y
        ≡ bitwise on_zero digit (x / 2) (y / 2) * 2 + digit (x % 2) (y % 2)
  lowest_digit at_zero zero y = at_zero y
  lowest_digit at_zero (suc x) y =
      rw (enough_fuel x (suc x / 2) (suc x / 2) (y / 2) (omega arith) (omega arith))

pub bit_or_step : (x y : ℕ) → bit_or x y ≡ bit_or (x / 2) (y / 2) * 2 + max (x % 2) (y % 2)
bit_or_step x y = simp bit_or-bitwise (lowest_digit (λ k. k) max (λ k. omega arith) x y)

pub bit_and_step : (x y : ℕ) → bit_and x y ≡ bit_and (x / 2) (y / 2) * 2 + min (x % 2) (y % 2)
bit_and_step x y = simp bit_and-bitwise (lowest_digit (λ k. 0) min (λ k. omega arith) x y)

differ_lem : (x y : ℕ) → differ x y ≡ (x - y) + (y - x)
differ_lem zero y = omega arith
differ_lem (suc x) zero = omega arith
differ_lem (suc x) (suc y) = omega (arith, differ_lem x y)

-- `^` of two digits is their sum mod 2.
pub bit_xor_step : (x y : ℕ) → bit_xor x y ≡ bit_xor (x / 2) (y / 2) * 2 + (x % 2 + y % 2) % 2
bit_xor_step x y = omega (
  arith,
  bit_xor-bitwise x y,
  bit_xor-bitwise (x / 2) (y / 2),
  lowest_digit (λ k. k) differ (λ k. omega (arith, differ_lem 0 (k % 2))) x y,
  differ_lem (x % 2) (y % 2),
)
