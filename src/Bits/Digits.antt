-- ===== src/Bits/Digits.antt =====
-- One equation for the lowest binary digit of `&` and `|`, from the recursion with fuel that the
-- native operations stand for.
use Prim.Native.Nat.{digits, bitwise, bit_and-bitwise, bit_or-bitwise}
use native.Mathlib.Nat.{le_refl}
use sel4cp.Prelude.{
  ℕ, zero, suc, ◌+◌, ◌*◌, ◌/◌, ◌%◌, ◌≤◌, min, max, bit_and, bit_or, ◌≡◌, refl, arith,
}

module _ (rest : ℕ → ℕ) (digit : ℕ → ℕ → ℕ) where
  -- Fuel beyond the first number changes nothing.
  enough : (m n a b : ℕ) → a ≤ m → a ≤ n → digits rest digit m a b ≡ digits rest digit n a b
  enough zero zero a b h k = refl
  enough zero (suc n) zero b h k = refl
  enough (suc m) zero zero b h k = refl
  enough zero (suc n) (suc a) b h k = absurd (omega arith)
  enough (suc m) zero (suc a) b h k = absurd (omega arith)
  enough (suc m) (suc n) zero b h k = refl
  enough (suc m) (suc n) (suc a) b h k =
      omega (arith, enough m n (suc a / 2) (b / 2) (omega arith) (omega arith))

  lowest :
      (a b : ℕ)
      → bitwise rest digit (suc a) b
        ≡ bitwise rest digit (suc a / 2) (b / 2) * 2 + digit (suc a % 2) (b % 2)
  lowest a b = omega (arith, enough a (suc a / 2) (suc a / 2) (b / 2) (omega arith) (le_refl _))

pub bit_and_step : (x y : ℕ) → bit_and x y ≡ bit_and (x / 2) (y / 2) * 2 + min (x % 2) (y % 2)
bit_and_step (suc k) y = simp bit_and-bitwise (lowest (λ t. zero) min k y)
bit_and_step zero y = simp bit_and-bitwise (omega arith)

pub bit_or_step : (x y : ℕ) → bit_or x y ≡ bit_or (x / 2) (y / 2) * 2 + max (x % 2) (y % 2)
bit_or_step (suc k) y = simp bit_or-bitwise (lowest (λ t. t) max k y)
bit_or_step zero y = simp bit_or-bitwise (omega arith)
