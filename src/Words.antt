-- ===== src/Words.antt =====
-- The arithmetic helpers of tool/sel4coreplat/util.py: sizes, bit positions, alignment, and the
-- 64-bit arithmetic of kernel addresses. Python's integers are unbounded; all numbers here are
-- non-negative, but for bit positions, which are -1 for zero.
pub mod Position
pub mod Align
pub mod Wrap
use sel4cp.Prelude.{
  ℕ, zero, suc, ◌+◌, ◌-◌, ◌*◌, ◌/◌, ◌%◌, ◌^◌, bit_and, Bool, true, false, ℤ, pos, negsuc, Result,
  ok, err, assertion, value_error, guard, ◌>>=◌, ◌>>◌, ltb, ◌==◌, if◌then◌else◌,
}

unfoldable pub kb : ℕ → ℕ
kb n = n * 1024

unfoldable pub mb : ℕ → ℕ
mb n = n * 1024 * 1024

bit_length_loop : ℕ → ℕ → ℕ
bit_length_loop zero n = 0
bit_length_loop (suc fuel) n = elim (n == 0) [
  | true ↦ 0
  | false ↦ suc (bit_length_loop fuel (n / 2))
]

-- `int.bit_length`: the rounds of halving until zero is reached; as many rounds as `n` suffice.
unfoldable pub bit_length : ℕ → ℕ
unfolding bit_length_loop
bit_length n = bit_length_loop n n

unfoldable pub msb : ℕ → ℤ
unfolding bit_length
msb x = elim (bit_length x) [ zero ↦ negsuc 0 | suc k ↦ pos k ]

-- `x & -x`: below the width of `x` the two's complement of `x` is `2 ** width - x`, and above it
-- `x` has no bits.
unfoldable pub lowest_bit : ℕ → ℕ
unfolding bit_length
lowest_bit x = bit_and x (2 ^ bit_length x - x)

unfoldable pub lsb : ℕ → ℤ
unfolding msb lowest_bit
lsb x = msb (lowest_bit x)

-- `1 << bits`, which Python refuses for a negative count.
abbrev pub shift_one : ℤ → Result ℕ
shift_one (pos bits) = ok (2 ^ bits)
shift_one (negsuc n) = err value_error

-- For `x` other than zero, as at each of the callers.
unfoldable pub round_up : ℕ → ℕ → ℕ
round_up n x = if n % x == 0 then n else n + x - n % x

unfoldable pub round_down : ℕ → ℕ → ℕ
round_down n x = if n % x == 0 then n else n - n % x

unfoldable pub mask_bits : ℕ → ℕ → Result ℕ
mask_bits n bits = do guard (ltb 0 n) assertion; ok (n / 2 ^ bits * 2 ^ bits)

unfoldable pub is_power_of_two : ℕ → Result Bool
is_power_of_two n = do guard (ltb 0 n) assertion; ok (bit_and n (n - 1) == 0)

-- `2 ** 64`.
abbrev pub word_mod : ℕ
word_mod = 2 ^ 64

unfoldable pub machine_wrap : ℕ → ℕ
machine_wrap n = bit_and n (word_mod - 1)

unfoldable pub machine_add : ℕ → ℕ → ℕ
unfolding machine_wrap
machine_add a b = machine_wrap (a + b)

-- `machine_wrap(a - b)`: a negative difference wraps as the same number plus a multiple of the
-- modulus does.
unfoldable pub machine_sub : ℕ → ℕ → ℕ
unfolding machine_wrap
machine_sub a b = machine_wrap (a + (word_mod - b % word_mod))

unfoldable pub paddr_to_kernel_vaddr : ℕ → ℕ → ℕ
unfolding machine_add
paddr_to_kernel_vaddr kernel_virtual_base paddr = machine_add paddr kernel_virtual_base

unfoldable pub kernel_vaddr_to_paddr : ℕ → ℕ → ℕ
unfolding machine_sub
kernel_vaddr_to_paddr kernel_virtual_base kernel_vaddr =
    machine_sub kernel_vaddr kernel_virtual_base
