-- ===== src/Bits.antt =====
-- Python's `&` and `|` on non-negative integers, which the tool uses for masks, badges, capability
-- addresses and message tags. The laws hold for numbers of every width.
mod Digits
use Digits.{bit_and_step, bit_or_step}
use native.Mathlib.Nat.{
  pow-suc, le_refl, mod-lt, mod-eq_of_lt, div-eq_of_lt, div-add-mod, mul-add-mod_self_left,
  mul-add-div,
}
use sel4cp.Prelude.{
  ℕ, zero, suc, ◌+◌, ◌-◌, ◌*◌, ◌/◌, ◌%◌, ◌^◌, ◌≤◌, ◌<◌, bit_and, bit_or, ◌≡◌, refl, ap, ◌∙◌, arith,
}

pub pow_double : (k : ℕ) → 2 ^ suc k ≡ 2 * 2 ^ k
pow_double k = omega (arith, pow-suc 2 k)

pub pow_pos : (k : ℕ) → 0 < 2 ^ k
pow_pos zero = omega arith
pow_pos (suc k) = omega (arith, pow_pos k, pow_double k)

pub pow-add : (a b : ℕ) → 2 ^ (a + b) ≡ 2 ^ a * 2 ^ b
pow-add zero b = let e : 0 + b ≡ b = omega arith in rw e (omega arith)
pow-add (suc a) b =
    let e : suc a + b ≡ suc (a + b) = omega arith in
    rw (e, pow_double (a + b), pow-add a b, pow_double a) (omega arith)

pub bit_and-zero : (a : ℕ) → bit_and a 0 ≡ 0
bit_and-zero a = below a a (le_refl a)
  where
    below : (n a : ℕ) → a ≤ n → bit_and a 0 ≡ 0
    below n zero h = refl
    below zero (suc a) h = absurd (omega arith)
    below (suc n) (suc a) h =
        omega (arith, bit_and_step (suc a) 0, below n (suc a / 2) (omega arith))

pub bit_or-zero : (a : ℕ) → bit_or a 0 ≡ a
bit_or-zero a = below a a (le_refl a)
  where
    below : (n a : ℕ) → a ≤ n → bit_or a 0 ≡ a
    below n zero h = refl
    below zero (suc a) h = absurd (omega arith)
    below (suc n) (suc a) h =
        omega (arith, bit_or_step (suc a) 0, below n (suc a / 2) (omega arith))

-- Numbers whose set bits do not meet are joined by `|` as by `+`.
pub bit_or-disjoint : (k q r : ℕ) → r < 2 ^ k → bit_or (q * 2 ^ k) r ≡ q * 2 ^ k + r
bit_or-disjoint zero q r h =
    let r0 : r ≡ 0 = omega arith in rw r0 (omega (arith, bit_or-zero (q * 2 ^ 0)))
bit_or-disjoint (suc k) q r h =
    let e : q * 2 ^ suc k ≡ q * 2 ^ k * 2 = rw (pow_double k) (omega arith) in
    let half : q * 2 ^ k * 2 / 2 ≡ q * 2 ^ k = omega arith in
    rw (e, bit_or_step (q * 2 ^ k * 2) r, half)
      (omega (arith, bit_or-disjoint k q (r / 2) (omega (arith, pow_double k))))

-- A quotient and a remainder are told by their sum.
pub mod_of_parts : (m q r : ℕ) → r < m → (m * q + r) % m ≡ r
mod_of_parts m q r h = rw (mul-add-mod_self_left m q r) (mod-eq_of_lt h)

pub div_of_parts : (m q r : ℕ) → r < m → (m * q + r) / m ≡ q
div_of_parts m q r h =
    let pos : 0 < m = omega arith in
    let none : r / m ≡ 0 = div-eq_of_lt h in rw (mul-add-div pos q r, none) (omega arith)

mod_double : (a m : ℕ) → 0 < m → a % (2 * m) ≡ a / 2 % m * 2 + a % 2
mod_double a m h =
    let parts : a ≡ 2 * m * (a / 2 / m) + (a / 2 % m * 2 + a % 2) =
      omega (arith, ap (λ (t : ℕ). 2 * t) (div-add-mod (a / 2) m)) in
    let small : a / 2 % m * 2 + a % 2 < 2 * m = omega (arith, mod-lt (a / 2) h) in
    ap (λ t. t % (2 * m)) parts ∙ mod_of_parts (2 * m) (a / 2 / m) _ small

-- `a & ((1 << k) - 1)` is `a % 2 ** k`.
pub bit_and-mask : (k a : ℕ) → bit_and a (2 ^ k - 1) ≡ a % 2 ^ k
bit_and-mask zero a = omega (arith, bit_and-zero a)
bit_and-mask (suc k) a =
    let e : (2 ^ suc k - 1) / 2 ≡ 2 ^ k - 1 = omega (arith, pow_double k, pow_pos k) in
    rw (bit_and_step a (2 ^ suc k - 1), e, bit_and-mask k (a / 2), pow_double k)
      (omega (arith, mod_double a (2 ^ k) (pow_pos k), pow_pos k))

-- A number and its complement share no bit.
pub bit_and-complement : (k a : ℕ) → a < 2 ^ k → bit_and a (2 ^ k - 1 - a) ≡ 0
bit_and-complement zero a h = let a0 : a ≡ 0 = omega arith in rw a0
bit_and-complement (suc k) a h =
    let e : (2 ^ suc k - 1 - a) / 2 ≡ 2 ^ k - 1 - a / 2 = omega (arith, pow_double k) in
    rw (bit_and_step a (2 ^ suc k - 1 - a), e)
      (omega (arith, pow_double k, bit_and-complement k (a / 2) (omega (arith, pow_double k))))

pub bit_and_self : (a : ℕ) → bit_and a a ≡ a
bit_and_self a = below a a (le_refl a)
  where
    below : (n a : ℕ) → a ≤ n → bit_and a a ≡ a
    below n zero h = refl
    below zero (suc a) h = absurd (omega arith)
    below (suc n) (suc a) h =
        omega (arith, bit_and_step (suc a) (suc a), below n (suc a / 2) (omega arith))

-- The lowest digit of an `&`.
pub bit_and_even : (a b : ℕ) → bit_and (2 * a) (2 * b) ≡ 2 * bit_and a b
bit_and_even a b =
    let p : 2 * a / 2 ≡ a = omega arith in
    let q : 2 * b / 2 ≡ b = omega arith in rw (bit_and_step (2 * a) (2 * b), p, q) (omega arith)

pub bit_and_even_odd : (a b : ℕ) → bit_and (2 * a) (2 * b + 1) ≡ 2 * bit_and a b
bit_and_even_odd a b =
    let p : 2 * a / 2 ≡ a = omega arith in
    let q : (2 * b + 1) / 2 ≡ b = omega arith in
    rw (bit_and_step (2 * a) (2 * b + 1), p, q) (omega arith)

pub bit_and_odd_even : (a b : ℕ) → bit_and (2 * a + 1) (2 * b) ≡ 2 * bit_and a b
bit_and_odd_even a b =
    let p : (2 * a + 1) / 2 ≡ a = omega arith in
    let q : 2 * b / 2 ≡ b = omega arith in rw (bit_and_step (2 * a + 1) (2 * b), p, q) (omega arith)

pub bit_and_odd : (a b : ℕ) → bit_and (2 * a + 1) (2 * b + 1) ≡ 2 * bit_and a b + 1
bit_and_odd a b =
    let p : (2 * a + 1) / 2 ≡ a = omega arith in
    let q : (2 * b + 1) / 2 ≡ b = omega arith in
    rw (bit_and_step (2 * a + 1) (2 * b + 1), p, q) (omega arith)

pub bit_or_comm : (a b : ℕ) → bit_or a b ≡ bit_or b a
bit_or_comm a b = below (a + b) a b (omega arith) (omega arith)
  where
    below : (n a b : ℕ) → a ≤ n → b ≤ n → bit_or a b ≡ bit_or b a
    below zero a b h k = let a0 : a ≡ 0 = omega arith in let b0 : b ≡ 0 = omega arith in rw (a0, b0)
    below (suc n) a b h k = omega (
      arith,
      bit_or_step a b,
      bit_or_step b a,
      below n (a / 2) (b / 2) (omega arith) (omega arith),
    )
