-- ===== src/Words/Position.antt =====
-- What `msb` and `lsb` compute.
use native.Mathlib.Nat.{le_refl}
use native.Mathlib.Decide.{dec_lt}
use sel4cp.Prelude.{
  ℕ, zero, suc, ◌+◌, ◌-◌, ◌*◌, ◌/◌, ◌%◌, ◌^◌, ◌<◌, ◌≤◌, ◌≡◌, refl, ap, ◌∙◌, bit_and, false, pos,
  inl, inr, arith, Bool-cases, ◌==◌,
}
use sel4cp.Bits.{pow_double, pow_pos, pow-add, bit_and_even, bit_and_odd, bit_and-complement}
use sel4cp.Words.{bit_length_loop, bit_length, msb, lowest_bit, lsb}

bit_length_loop-zero : (f : ℕ) → bit_length_loop f 0 ≡ 0
unfolding bit_length_loop
bit_length_loop-zero zero = refl
bit_length_loop-zero (suc f) = refl

bit_length_loop_bounds :
    (f n : ℕ)
    → n ≤ f
    → 0 < n
    → (k : ℕ) × (bit_length_loop f n ≡ suc k) × (2 ^ k ≤ n) × (n < 2 ^ suc k)
unfolding bit_length_loop
bit_length_loop_bounds zero n h p = absurd (omega arith)
bit_length_loop_bounds (suc f) n h p =
    let some_bit : (n == 0) ≡ false = ground arith in
    elim (Bool-cases (n / 2 == 0)) [
      | inl e ↦
          let none : n / 2 ≡ 0 = ground arith in
          (
            0,
            rw (some_bit, bit_length_loop, none, bit_length_loop-zero f) refl,
            omega arith,
            omega arith,
          )
      | inr e ↦
          let (k, same, low, high) =
            bit_length_loop_bounds f (n / 2) (omega arith) (ground arith) in
          (
            suc k,
            rw (some_bit, bit_length_loop, same) refl,
            omega (arith, pow_double k),
            omega (arith, pow_double (suc k)),
          )
    ]

pub bit_length_bounds :
    (n : ℕ) → 0 < n → (k : ℕ) × (bit_length n ≡ suc k) × (2 ^ k ≤ n) × (n < 2 ^ suc k)
unfolding bit_length
bit_length_bounds n p = bit_length_loop_bounds n n (le_refl n) p

pub pow_mono : (j k : ℕ) → j ≤ k → 2 ^ j ≤ 2 ^ k
pow_mono j k h =
    let e : k ≡ j + (k - j) = omega arith in
    rw (e, pow-add j (k - j)) (grind (arith, pow_pos (k - j)))

pub pow_reflects : (j k : ℕ) → 2 ^ j < 2 ^ k → j < k
pow_reflects j k h = elim (dec_lt j k) [
  | yes less ↦ less
  | no more ↦ absurd (omega (arith, pow_mono k j (omega arith)))
]

msb_of_length : (n k : ℕ) → bit_length n ≡ suc k → msb n ≡ pos k
unfolding msb
msb_of_length n k e = rw (e, msb)

-- The position of the highest bit of a positive number is the exponent of the greatest power of two
-- that is not above it.
pub msb_bounds : (n : ℕ) → 0 < n → (k : ℕ) × (msb n ≡ pos k) × (2 ^ k ≤ n) × (n < 2 ^ suc k)
msb_bounds n p =
    let (k, e, low, high) = bit_length_bounds n p in (k, msb_of_length n k e, low, high)

pub msb-pow : (k : ℕ) → msb (2 ^ k) ≡ pos k
msb-pow k =
    let (j, e, low, high) = msb_bounds (2 ^ k) (pow_pos k) in
    let below : k < suc j = pow_reflects k (suc j) high in
    let above : j < suc k = pow_reflects j (suc k) (omega (arith, pow_double k, pow_pos k)) in
    let same : j ≡ k = omega arith in e ∙ ap pos same

double_parts : (n q k : ℕ) → n ≡ (2 * q + 1) * 2 ^ k → 2 * n ≡ (2 * q + 1) * 2 ^ suc k
double_parts n q k e = rw (e, pow_double k) (omega arith)

lsb_of_bit : (n w k : ℕ) → bit_length n ≡ w → bit_and n (2 ^ w - n) ≡ 2 ^ k → lsb n ≡ pos k
unfolding lsb lowest_bit
lsb_of_bit n w k e b = rw (e, b) (msb-pow k)

-- A positive number is an odd multiple of a power of two, and that power is its lowest bit, at any
-- width that holds the number.
lowest_bit_parts :
    (w n : ℕ)
    → 0 < n
    → n < 2 ^ w
    → (k : ℕ) × (q : ℕ) × (n ≡ (2 * q + 1) * 2 ^ k) × (bit_and n (2 ^ w - n) ≡ 2 ^ k)
lowest_bit_parts zero n p h = absurd (omega arith)
lowest_bit_parts (suc w) n p h = elim (Bool-cases (n % 2 == 0)) [
  | inl even ↦
      let half : n ≡ 2 * (n / 2) = ground arith in
      let (k, q, parts, bit) =
        lowest_bit_parts w (n / 2) (omega arith) (omega (arith, pow_double w)) in
      let rest : 2 ^ suc w - n ≡ 2 * (2 ^ w - n / 2) = omega (arith, pow_double w) in
      (
        suc k,
        q,
        half ∙ double_parts (n / 2) q k parts,
        rw rest (
            ap (λ t. bit_and t (2 * (2 ^ w - n / 2))) half
            ∙ bit_and_even (n / 2) (2 ^ w - n / 2)
            ∙ omega (arith, pow_double k, bit)),
      )
  | inr odd ↦
      let half : n ≡ 2 * (n / 2) + 1 = ground arith in
      let rest : 2 ^ suc w - n ≡ 2 * (2 ^ w - 1 - n / 2) + 1 = omega (arith, pow_double w) in
      (
        0,
        n / 2,
        omega arith,
        rw rest (
            ap (λ t. bit_and t (2 * (2 ^ w - 1 - n / 2) + 1)) half
            ∙ bit_and_odd (n / 2) (2 ^ w - 1 - n / 2)
            ∙ omega (arith, bit_and-complement w (n / 2) (omega (arith, pow_double w)))),
      )
]

-- The position of the lowest bit of a positive number is the exponent of the greatest power of two
-- that divides it: the number is an odd multiple of that power.
pub lsb_parts : (n : ℕ) → 0 < n → (k : ℕ) × (q : ℕ) × (lsb n ≡ pos k) × (n ≡ (2 * q + 1) * 2 ^ k)
lsb_parts n p =
    let (w, size, low, high) = bit_length_bounds n p in
    let (k, q, parts, bit) = lowest_bit_parts (suc w) n p high in
    (k, q, lsb_of_bit n (suc w) k size bit, parts)
