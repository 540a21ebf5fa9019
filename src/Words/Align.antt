-- ===== src/Words/Align.antt =====
-- Rounding, masking and the test for powers of two.
use native.Mathlib.Nat.{mod-lt, div-add-mod, mod_self, le_refl}
use mathlib.Core.Path.{ap₂}
use sel4cp.Prelude.{
  ◌↔◌, ◌⊎◌, false, ℕ, zero, suc, ◌+◌, ◌-◌, ◌*◌, ◌/◌, ◌%◌, ◌^◌, ◌<◌, ◌≤◌, ◌≡◌, ◌≢◌, refl, ap, ◌∙◌,
  bit_and, true, ok, err, assertion, inl, inr, arith, Bool-cases, ◌==◌, ==_iff, ltb, if◌then◌else◌,
}
use sel4cp.Bits.{
  mod_of_parts, pow_double, pow_pos, bit_and_odd_even, bit_and_even_odd, bit_and_self, bit_and-mask,
}
use sel4cp.Words.{round_up, round_down, mask_bits, is_power_of_two}

-- The multiple of `x` next above `n` is one more than the quotient.
round_up-parts : (n x : ℕ) → 0 < x → n % x ≢ 0 → (n + x - n % x) ≡ x * (n / x + 1) + 0
round_up-parts n x h r = omega (arith, div-add-mod n x, mod-lt n h)

-- For a positive alignment `round_up` gives the least multiple of it that is not below `n`, and
-- `round_down` the greatest multiple of it that is not above `n`.
pub round_lem :
    (n x : ℕ)
    → 0 < x
    → (round_up n x % x ≡ 0)
      × (n ≤ round_up n x)
      × (round_up n x < n + x)
      × (round_down n x % x ≡ 0)
      × (round_down n x ≤ n)
      × (n < round_down n x + x)
unfolding round_up round_down
round_lem n x h = elim (Bool-cases (n % x == 0)) [
  | inl e ↦
      let z : n % x ≡ 0 = (==_iff _ _).0 e in
      rw e (z, omega arith, omega arith, z, omega arith, omega arith)
  | inr e ↦
      let up = round_up-parts n x h (ground arith) in
      let down : n - n % x ≡ x * (n / x) + 0 = omega (arith, div-add-mod n x) in
      rw e (
        ap (λ t. t % x) up ∙ mod_of_parts x (n / x + 1) 0 h,
        omega (arith, mod-lt n h),
        ground arith,
        ap (λ t. t % x) down ∙ mod_of_parts x (n / x) 0 h,
        omega arith,
        omega (arith, mod-lt n h),
      )
]

-- A nonzero result of `mask_bits` is the number with its lower bits cleared; zero is refused.
pub mask_bits_lem :
    (n bits : ℕ)
    → mask_bits n bits ≡ (if n == 0 then err assertion else ok (round_down n (2 ^ bits)))
unfolding mask_bits round_down
mask_bits_lem n bits = elim (Bool-cases (n == 0)) [
  | inl e ↦ let z : n ≡ 0 = ground arith in rw z refl
  | inr e ↦ let pos : ltb 0 n ≡ true = ground arith in rw (e, pos) (ap ok (floor n (2 ^ bits)))
]
  where
    floor : (n x : ℕ) → n / x * x ≡ (if n % x == 0 then n else n - n % x)
    floor n x = ground (arith, div-add-mod n x)

cleared_by_pred : (f n : ℕ) → n ≤ f → 0 < n → bit_and n (n - 1) ≡ 0 → (k : ℕ) × (n ≡ 2 ^ k)
cleared_by_pred zero n h p e = absurd (omega arith)
cleared_by_pred (suc f) n h p e = elim (Bool-cases (n % 2 == 0)) [
  | inl even ↦
      let half : n ≡ 2 * (n / 2) = ground arith in
      let before : n - 1 ≡ 2 * (n / 2 - 1) + 1 = omega arith in
      let bits : bit_and n (n - 1) ≡ 2 * bit_and (n / 2) (n / 2 - 1) =
        ap₂ bit_and half before ∙ bit_and_even_odd (n / 2) (n / 2 - 1) in
      let (k, same) = cleared_by_pred f (n / 2) (omega arith) (omega arith) (omega arith) in
      (suc k, omega (arith, pow_double k))
  | inr odd ↦
      let half : n ≡ 2 * (n / 2) + 1 = ground arith in
      let before : n - 1 ≡ 2 * (n / 2) = omega arith in
      let bits : bit_and n (n - 1) ≡ 2 * bit_and (n / 2) (n / 2) =
        ap₂ bit_and half before ∙ bit_and_odd_even (n / 2) (n / 2) in
      (0, omega (arith, bit_and_self (n / 2)))
]

pub is_power_of_two-cases :
    (is_power_of_two 0 ≡ err assertion)
    × ((n : ℕ) → is_power_of_two n ≡ ok true → (k : ℕ) × (n ≡ 2 ^ k))
    × ((k : ℕ) → is_power_of_two (2 ^ k) ≡ ok true)
unfolding is_power_of_two
is_power_of_two-cases = (refl, only, each)
  where
    only : (n : ℕ) → is_power_of_two n ≡ ok true → (k : ℕ) × (n ≡ 2 ^ k)
    only n h = cleared_by_pred n n (le_refl n) (ground arith) (ground arith)

    each : (k : ℕ) → is_power_of_two (2 ^ k) ≡ ok true
    each k = ground (arith, pow_pos k, bit_and-mask k (2 ^ k), mod_self (2 ^ k))

-- The test for a power of two raises AssertionError at 0, is True exactly at the powers of two, and
-- is one of True and False at every number above 0.
pub is_power_of_two_lem :
    (is_power_of_two 0 ≡ err assertion)
    × ((n : ℕ) → (is_power_of_two n ≡ ok true) ↔ ((k : ℕ) × (n ≡ 2 ^ k)))
    × ((n : ℕ) → (is_power_of_two (suc n) ≡ ok true) ⊎ (is_power_of_two (suc n) ≡ ok false))
unfolding is_power_of_two
is_power_of_two_lem = (refl, exact, total)
  where
    exact : (n : ℕ) → (is_power_of_two n ≡ ok true) ↔ ((k : ℕ) × (n ≡ 2 ^ k))
    exact n = (
      (λ h. is_power_of_two-cases.1 n h),
      (λ k. ap is_power_of_two k.1 ∙ is_power_of_two-cases.2 k.0),
    )

    total : (n : ℕ) → (is_power_of_two (suc n) ≡ ok true) ⊎ (is_power_of_two (suc n) ≡ ok false)
    total n =
        let pos : ltb 0 (suc n) ≡ true = ground arith in
        elim (Bool-cases (bit_and (suc n) (suc n - 1) == 0)) [
          | inl e ↦ inl (rw (pos, e) refl)
          | inr e ↦ inr (rw (pos, e) refl)
        ]
