-- ===== src/Memory/SplitAll.antt =====
-- Cutting a whole list of regions into aligned power-of-two blocks.
use sel4cp.Prelude.{
  ℕ, zero, suc, ◌≤◌, ◌<◌, ◌≡◌, refl, sym, ◌⊎◌, inl, inr, ◌==◌, true, ◌∙◌, ap, ◌||◌, List, [], ◌∷◌,
  ◌++◌, arith, ok, Returns-inv, All, All-append,
}
use sel4cp.Bits.{pow_pos}
use sel4cp.Words.{word_mod, machine_sub, paddr_to_kernel_vaddr}
use sel4cp.Memory.{
  MemoryRegion, DisjointMemoryRegion, aligned_power_of_two_regions, split_loop, split_all,
}
use sel4cp.Memory.Cover.{inside, covers, IsOrdered, IsOrdered-weaken}
use sel4cp.Memory.Split.{Tiles, IsBlock, aligned_power_of_two_regions-IsSplit}

-- Every region that has bytes ends inside the 64-bit address space.
abbrev pub AllWords : List MemoryRegion → Type 0
AllWords = All (λ r. r.base < r.end → r.end < word_mod)

module _ (kernel_virtual_base max_bits : ℕ) where
  abbrev pub AllBlocks : List MemoryRegion → Type 0
  AllBlocks = All (IsBlock kernel_virtual_base max_bits)

  -- Blocks that tile a range are in order up to its end, and cover just the range beside what
  -- follows.
  pub Tiles-covers :
      (first last : ℕ) (bs rs : List MemoryRegion)
      → Tiles first last bs
      → AllBlocks bs
      → IsOrdered last rs
      → (first ≤ last)
        × IsOrdered first (bs ++ rs)
        × ((a : ℕ) → covers (bs ++ rs) a ≡ (inside first last a || covers rs a))
  Tiles-covers first last [] rs t b o =
      (omega arith, IsOrdered-weaken first last rs (omega arith) o, λ a. ground arith)
  Tiles-covers first last (r ∷ bs) rs t b o =
      let (below, ordered, covered) = Tiles-covers r.end last bs rs t.1 b.1 o in
      let exact = b.0.exact in
      let some_bytes = pow_pos b.0.bits in
      (omega arith, (omega arith, omega arith, ordered), λ a. ground (arith, covered a))

  split_loop-nil : (fuel at : ℕ) → split_loop kernel_virtual_base max_bits fuel at at ≡ ok []
  unfolding split_loop
  split_loop-nil zero at = let same : (at == at) ≡ true = ground arith in rw same refl
  split_loop-nil (suc fuel) at =
      let same : (at == at) ≡ true = ground arith in rw (same, split_loop) refl

  -- One region, which may be empty.
  pub region-blocks :
      (r : MemoryRegion)
      → r.base ≤ r.end
      → (r.base < r.end → r.end < word_mod)
      → (bs : List MemoryRegion) × (aligned_power_of_two_regions kernel_virtual_base max_bits r
          ≡ ok bs)
        × (Tiles r.base r.end bs × AllBlocks bs)
  unfolding aligned_power_of_two_regions
  region-blocks r range small = elim (empty_or_not r.base r.end range) [
    | inl e ↦
        let first = paddr_to_kernel_vaddr kernel_virtual_base r.base in
        (
          [],
          ap
                (λ t.
                  aligned_power_of_two_regions kernel_virtual_base max_bits
                    (record { base = r.base; end = t }))
                (sym e)
              ∙ split_loop-nil (machine_sub first first) first,
          (e, tt),
        )
    | inr more ↦
        Returns-inv (λ rs. Tiles r.base r.end rs × AllBlocks rs)
          (aligned_power_of_two_regions kernel_virtual_base max_bits r)
          (aligned_power_of_two_regions-IsSplit kernel_virtual_base max_bits r range (small more))
  ]
    where
      empty_or_not : (a b : ℕ) → a ≤ b → (a ≡ b) ⊎ (a < b)
      empty_or_not a b h = ground arith

  split_all-blocks :
      (low : ℕ) (rs : DisjointMemoryRegion)
      → IsOrdered low rs
      → AllWords rs
      → (bs : List MemoryRegion) × (split_all kernel_virtual_base max_bits rs ≡ ok bs)
        × AllBlocks bs
        × IsOrdered low bs
        × ((a : ℕ) → covers bs a ≡ covers rs a)
  unfolding split_all
  split_all-blocks low [] o w = ([], refl, tt, tt, λ a. refl)
  split_all-blocks low (r ∷ rs) o w =
      let (first, one, (tiles, blocks)) = region-blocks r o.1 w.0 in
      let (rest, more, rest_blocks, ordered, covered) = split_all-blocks r.end rs o.2 w.1 in
      let (_, whole, cover) = Tiles-covers r.base r.end first rest tiles blocks ordered in
      let joined : split_all kernel_virtual_base max_bits (r ∷ rs) ≡ ok (first ++ rest) =
        rw (one, more) refl in
      (
        first ++ rest,
        joined,
        All-append (IsBlock kernel_virtual_base max_bits) first rest blocks rest_blocks,
        IsOrdered-weaken low r.base (first ++ rest) o.0 whole,
        λ a. cover a ∙ ap (λ t. inside r.base r.end a || t) (covered a),
      )

-- Splitting an ordered list of regions, of which those with bytes end inside the 64-bit address space,
-- always returns. Each block has a
-- power of two of at most `2 ** max_bits` bytes and is aligned to its size at its kernel virtual
-- address, the blocks are in order without overlap, and they cover exactly what the regions cover.
pub split_all-covers :
    (kernel_virtual_base max_bits : ℕ) (rs : DisjointMemoryRegion)
    → IsOrdered 0 rs
    → AllWords rs
    → (bs : List MemoryRegion) × (split_all kernel_virtual_base max_bits rs ≡ ok bs)
      × All (IsBlock kernel_virtual_base max_bits) bs
      × IsOrdered 0 bs
      × ((a : ℕ) → covers bs a ≡ covers rs a)
split_all-covers kernel_virtual_base max_bits rs =
    split_all-blocks kernel_virtual_base max_bits 0 rs
