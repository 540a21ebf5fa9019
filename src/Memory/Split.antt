-- ===== src/Memory/Split.antt =====
-- Cutting a region into aligned power-of-two blocks.
use mathlib.Core.Path.{ap₂, subst, subst₂, sym}
use native.Mathlib.Nat.{zero-mod, mod-eq_of_lt, le_refl}
use sel4cp.Prelude.{
  min, ℕ, zero, suc, ◌+◌, ◌-◌, ◌*◌, ◌%◌, ◌^◌, ◌≤◌, ◌<◌, ◌≡◌, refl, ap, ◌∙◌, true, pos, min_ℤ, List,
  [], ◌∷◌, arith, ◌==◌, Returns, Returns-inv, All, Bool-cases, inl, inr,
}
use sel4cp.Bits.{pow_pos, pow-add, mod_of_parts}
use sel4cp.Words.{word_mod, machine_add, machine_sub, paddr_to_kernel_vaddr, kernel_vaddr_to_paddr}
use sel4cp.Words.Wrap.{
  machine_add_lem, machine_sub_lem, kernel_vaddr_to_paddr-paddr_to_kernel_vaddr,
}
use sel4cp.Words.Position.{msb_bounds, lsb_parts, pow_mono}
use sel4cp.Memory.{MemoryRegion, block_bits, clip, split_loop, aligned_power_of_two_regions}

-- Consecutive regions from one address to another.
abbrev pub Tiles : ℕ → ℕ → List MemoryRegion → Type 0
Tiles first last [] = first ≡ last
Tiles first last (r ∷ rs) = (r.base ≡ first) × Tiles r.end last rs

-- A power-of-two block of at most `2 ** max_bits` bytes, aligned to its size at its kernel virtual
-- address.
pub record IsBlock (kernel_virtual_base max_bits : ℕ) (r : MemoryRegion) : Type 0 where
  pub bits : ℕ
  pub within : bits ≤ max_bits
  pub exact : r.end ≡ r.base + 2 ^ bits
  pub aligned : paddr_to_kernel_vaddr kernel_virtual_base r.base % 2 ^ bits ≡ 0

-- The exponent that a round picks: no more than the bound, the block fits into what is left, and
-- the address is a multiple of the block.
pub record Picked (max_bits base left bits : ℕ) : Type 0 where
  pub within : bits ≤ max_bits
  pub fits : 2 ^ bits ≤ left
  pub aligned : base % 2 ^ bits ≡ 0

pub odd_multiple : (q j k : ℕ) → k ≤ j → (2 * q + 1) * 2 ^ j % 2 ^ k ≡ 0
odd_multiple q j k h =
    let e : j ≡ k + (j - k) = omega arith in
    let parts : (2 * q + 1) * 2 ^ j ≡ 2 ^ k * ((2 * q + 1) * 2 ^ (j - k)) + 0 =
      omega
        (arith, ap (λ (t : ℕ). (2 * q + 1) * t) (ap (λ (t : ℕ). 2 ^ t) e ∙ pow-add k (j - k))) in
    ap (λ t. t % 2 ^ k) parts ∙ mod_of_parts (2 ^ k) ((2 * q + 1) * 2 ^ (j - k)) 0 (pow_pos k)

-- Without the bound: every smaller block fits and is aligned too.
block_bits-lem :
    (base left : ℕ)
    → 0 < left
    → (b : ℕ) × (block_bits base left ≡ pos b)
      × (2 ^ b ≤ left)
      × ((c : ℕ) → c ≤ b → base % 2 ^ c ≡ 0)
unfolding block_bits
block_bits-lem base left p =
    let (m, top, low, high) = msb_bounds left p in
    elim (Bool-cases (base == 0)) [
      | inl z ↦
          let none : base ≡ 0 = ground arith in
          (m, rw (z, block_bits) top, low, λ c h. rw none (zero-mod (2 ^ c)))
      | inr nz ↦
          let (j, q, bottom, parts) = lsb_parts base (ground arith) in
          (
            min m j,
            rw (nz, block_bits) (ap₂ min_ℤ top bottom ∙ both m j),
            omega (arith, pow_mono (min m j) m (omega arith)),
            λ c h. ap (λ t. t % 2 ^ c) parts ∙ odd_multiple q j c (omega arith),
          )
    ]
  where
    both : (a b : ℕ) → min_ℤ (pos a) (pos b) ≡ pos (min a b)
    both a b = ground arith

block_bits-Picked :
    (max_bits base left : ℕ)
    → 0 < left
    → (bits : ℕ) × (clip (block_bits base left) max_bits ≡ pos bits)
      × Picked max_bits base left bits
block_bits-Picked max_bits base left p =
    let (b, raw, low, aligned) = block_bits-lem base left p in
    (
      min max_bits b,
      ap (λ t. clip t max_bits) raw ∙ clipped b,
      record {
        within = omega arith;
        fits = omega (arith, pow_mono (min max_bits b) b (omega arith));
        aligned = aligned (min max_bits b) (omega arith);
      },
    )
  where
    clipped : (b : ℕ) → clip (pos b) max_bits ≡ pos (min max_bits b)
    clipped b = ground arith

module _ (kernel_virtual_base max_bits : ℕ) where
  abbrev to_paddr : ℕ → ℕ
  to_paddr = kernel_vaddr_to_paddr kernel_virtual_base

  to_vaddr-to_paddr :
      (v : ℕ) → v < word_mod → paddr_to_kernel_vaddr kernel_virtual_base (to_paddr v) ≡ v
  unfolding paddr_to_kernel_vaddr kernel_vaddr_to_paddr
  to_vaddr-to_paddr v h = omega (
    arith,
    machine_add_lem (machine_sub v kernel_virtual_base) kernel_virtual_base,
    machine_sub_lem v kernel_virtual_base,
  )

  to_paddr-lt : (v : ℕ) → to_paddr v < word_mod
  unfolding kernel_vaddr_to_paddr
  to_paddr-lt v = omega (arith, machine_sub_lem v kernel_virtual_base)

  -- The physical address moves with the virtual one while the rest of the region does not wrap.
  to_paddr-add :
      (base sz : ℕ) → to_paddr base + sz < word_mod → to_paddr (base + sz) ≡ to_paddr base + sz
  unfolding kernel_vaddr_to_paddr
  to_paddr-add base sz h = omega (
    arith,
    machine_sub_lem (base + sz) kernel_virtual_base,
    machine_sub_lem base kernel_virtual_base,
  )

  to_paddr-wrap : (v : ℕ) → to_paddr (v % word_mod) ≡ to_paddr v
  unfolding kernel_vaddr_to_paddr
  to_paddr-wrap v = omega (
    arith,
    machine_sub_lem (v % word_mod) kernel_virtual_base,
    machine_sub_lem v kernel_virtual_base,
  )

  -- A round takes its block off what is left.
  left-step :
      (base end sz : ℕ)
      → base < word_mod
      → end < word_mod
      → sz ≤ machine_sub end base
      → machine_sub end (machine_add base sz) ≡ machine_sub end base - sz
  left-step base end sz hb he hs = omega (
    arith,
    machine_sub_lem end base,
    machine_add_lem base sz,
    machine_sub_lem end (machine_add base sz),
  )

  abbrev IsSplit : ℕ → ℕ → List MemoryRegion → Type 0
  IsSplit first last rs = Tiles first last rs × All (IsBlock kernel_virtual_base max_bits) rs

  split_loop-IsSplit :
      (fuel base end : ℕ)
      → base < word_mod
      → end < word_mod
      → machine_sub end base ≤ fuel
      → to_paddr end ≡ to_paddr base + machine_sub end base
      → Returns
          (IsSplit (to_paddr base) (to_paddr end))
          (split_loop kernel_virtual_base max_bits fuel base end)
  unfolding split_loop
  split_loop-IsSplit zero base end hb he hf flat =
      let same : base ≡ end = omega (arith, machine_sub_lem end base) in
      let test : (base == end) ≡ true = ground arith in rw test (ap to_paddr same, tt)
  split_loop-IsSplit (suc fuel) base end hb he hf flat = elim (Bool-cases (base == end)) [
    | inl done ↦
        let same : base ≡ end = ground arith in rw (done, split_loop) (ap to_paddr same, tt)
    | inr more ↦
        let left : 0 < machine_sub end base = ground (arith, machine_sub_lem end base) in
        let (bits, picked, block) = block_bits-Picked max_bits base (machine_sub end base) left in
        let next = machine_add base (2 ^ bits) in
        let step = left-step base end (2 ^ bits) hb he block.fits in
        let small : next < word_mod = omega (arith, machine_add_lem base (2 ^ bits)) in
        let bound : to_paddr end < word_mod = to_paddr-lt end in
        let top : to_paddr (base + 2 ^ bits) ≡ to_paddr base + 2 ^ bits =
          to_paddr-add base (2 ^ bits) (omega (arith, block.fits, pow_pos bits)) in
        let moved : to_paddr next ≡ to_paddr (base + 2 ^ bits) =
          ap to_paddr (machine_add_lem base (2 ^ bits)) ∙ to_paddr-wrap (base + 2 ^ bits) in
        let (rest, ran, split) = Returns-inv (IsSplit (to_paddr next) (to_paddr end)) _ (
          split_loop-IsSplit fuel next end small he (omega (arith, pow_pos bits))
            (omega (arith, block.fits))) in
        rw (more, split_loop, picked, ran)
          (
            (refl, subst (λ t. Tiles t (to_paddr end) rest) moved split.0),
            (
              record {
                bits = bits;
                within = block.within;
                exact = top;
                aligned = ap (λ t. t % 2 ^ bits) (to_vaddr-to_paddr base hb) ∙ block.aligned;
              },
              split.1,
            ),
          )
  ]

flat_start :
    (base first last : ℕ)
    → first ≤ last
    → last < word_mod
    → last
      ≡ first + machine_sub (paddr_to_kernel_vaddr base last) (paddr_to_kernel_vaddr base first)
unfolding paddr_to_kernel_vaddr
flat_start base first last h w = omega (
  arith,
  machine_sub_lem (machine_add last base) (machine_add first base),
  machine_add_lem last base,
  machine_add_lem first base,
)

to_vaddr-lt : (base p : ℕ) → paddr_to_kernel_vaddr base p < word_mod
unfolding paddr_to_kernel_vaddr
to_vaddr-lt base p = omega (arith, machine_add_lem p base)

-- Splitting a region of the physical address space always returns, within as many rounds as it has
-- bytes. The blocks follow one another from the region's base to its end with no gap, each has a
-- power of two of at most `2 ** max_bits` bytes and is aligned to its size at its kernel virtual
-- address, for every kernel base, also where the virtual addresses wrap past 2 ** 64.
pub aligned_power_of_two_regions-IsSplit :
    (kernel_virtual_base max_bits : ℕ) (r : MemoryRegion)
    → r.base ≤ r.end
    → r.end < word_mod
    → Returns
        (λ rs. Tiles r.base r.end rs × All (IsBlock kernel_virtual_base max_bits) rs)
        (aligned_power_of_two_regions kernel_virtual_base max_bits r)
unfolding aligned_power_of_two_regions
aligned_power_of_two_regions-IsSplit base max_bits r h w =
    let first = paddr_to_kernel_vaddr base r.base in
    let last = paddr_to_kernel_vaddr base r.end in
    let back : (p : ℕ) → p < word_mod → to_paddr base max_bits (paddr_to_kernel_vaddr base p) ≡ p =
      λ p small. kernel_vaddr_to_paddr-paddr_to_kernel_vaddr base p ∙ mod-eq_of_lt small in
    let b = back r.base (omega arith) in
    let e = back r.end w in
    let flat =
      e ∙ flat_start base r.base r.end h w ∙ ap (λ t. t + machine_sub last first) (sym b) in
    subst₂
      (λ p q.
        Returns (λ rs. Tiles p q rs × All (IsBlock base max_bits) rs)
          (split_loop base max_bits (machine_sub last first) first last))
      b e
      (split_loop-IsSplit base max_bits (machine_sub last first) first last
        (to_vaddr-lt base r.base) (to_vaddr-lt base r.end) (le_refl _) flat)
