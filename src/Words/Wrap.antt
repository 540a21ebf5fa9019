-- ===== src/Words/Wrap.antt =====
-- 64-bit sums and differences as remainders, and the two address conversions.
use sel4cp.Prelude.{ℕ, ◌+◌, ◌-◌, ◌%◌, ◌<◌, ◌≤◌, ◌≡◌, arith}
use sel4cp.Bits.{bit_and-mask}
use sel4cp.Words.{
  word_mod, machine_wrap, machine_add, machine_sub, paddr_to_kernel_vaddr, kernel_vaddr_to_paddr,
}

pub machine_wrap_lem : (n : ℕ) → machine_wrap n ≡ n % word_mod
unfolding machine_wrap
machine_wrap_lem n = bit_and-mask 64 n

pub machine_add_lem : (a b : ℕ) → machine_add a b ≡ (a + b) % word_mod
unfolding machine_add
machine_add_lem a b = bit_and-mask 64 (a + b)

pub machine_sub_lem : (a b : ℕ) → machine_sub a b ≡ (a + (word_mod - b % word_mod)) % word_mod
unfolding machine_sub
machine_sub_lem a b = bit_and-mask 64 (a + (word_mod - b % word_mod))

pub ruleset wraps = (arith, machine_wrap_lem, machine_add_lem, machine_sub_lem)

-- A physical address turned into a kernel virtual address and back is the address modulo 2 ** 64,
-- for every kernel base, also where the sum overflows.
pub kernel_vaddr_to_paddr-paddr_to_kernel_vaddr :
    (base paddr : ℕ)
    → kernel_vaddr_to_paddr base (paddr_to_kernel_vaddr base paddr) ≡ paddr % word_mod
unfolding kernel_vaddr_to_paddr paddr_to_kernel_vaddr
kernel_vaddr_to_paddr-paddr_to_kernel_vaddr base paddr =
    omega (arith, machine_sub_lem (machine_add paddr base) base, machine_add_lem paddr base)
