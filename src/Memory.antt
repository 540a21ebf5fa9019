-- ===== src/Memory.antt =====
-- Ranges of memory and the ordered list of disjoint ranges: `MemoryRegion` and
-- `DisjointMemoryRegion` of tool/sel4coreplat/util.py.
pub mod Split
pub mod Cover
pub mod Insert
pub mod Remove
pub mod Allocate
pub mod SplitAll
use sel4cp.Prelude.{
  ℕ, zero, suc, ◌+◌, ◌-◌, ◌*◌, ◌^◌, Bool, true, false, ◌&&◌, ℤ, pos, negsuc, min_ℤ, Option, none,
  some, List, [], ◌∷◌, ◌++◌, Result, ok, err, Error, assertion, value_error, out_of_fuel, guard,
  ◌>>=◌, ◌>>◌, ltb, leb, ◌==◌, if◌then◌else◌,
}
use sel4cp.Words.{
  msb, lsb, shift_one, machine_add, machine_sub, paddr_to_kernel_vaddr, kernel_vaddr_to_paddr,
}

-- The base is inclusive, the end is exclusive.
pub record MemoryRegion : Type 0 where
  pub base : ℕ
  pub end : ℕ

-- `size`, for a region whose end is not below its base.
unfoldable pub size : MemoryRegion → ℕ
size r = r.end - r.base

-- `bits`, before and after `if bits > max_bits: bits = max_bits`.
unfoldable pub block_bits : ℕ → ℕ → ℤ
block_bits base left = if base == 0 then msb left else min_ℤ (msb left) (lsb base)

abbrev clip : ℤ → ℕ → ℤ
clip (pos bits) max_bits = if ltb max_bits bits then pos max_bits else pos bits
clip (negsuc n) max_bits = negsuc n

-- The loop of `aligned_power_of_two_regions`, over kernel virtual addresses.
unfoldable pub split_loop : ℕ → ℕ → ℕ → ℕ → ℕ → Result (List MemoryRegion)
unfolding block_bits
split_loop kernel_virtual_base max_bits zero base end =
    if base == end then ok [] else err out_of_fuel
split_loop kernel_virtual_base max_bits (suc fuel) base end = elim (base == end) [
  | true ↦ ok []
  | false ↦ do
    sz ← shift_one (clip (block_bits base (machine_sub end base)) max_bits)
    rest ← split_loop kernel_virtual_base max_bits fuel (machine_add base sz) end
    ok (
        record {
          base = kernel_vaddr_to_paddr kernel_virtual_base base;
          end = kernel_vaddr_to_paddr kernel_virtual_base (base + sz);
        }
        ∷ rest)
]

-- `MemoryRegion.aligned_power_of_two_regions`. Each round covers at least one byte, so the bytes
-- bound the rounds.
unfoldable pub aligned_power_of_two_regions : ℕ → ℕ → MemoryRegion → Result (List MemoryRegion)
unfolding split_loop
aligned_power_of_two_regions kernel_virtual_base max_bits r =
    let base = paddr_to_kernel_vaddr kernel_virtual_base r.base in
    let end = paddr_to_kernel_vaddr kernel_virtual_base r.end in
    split_loop kernel_virtual_base max_bits (machine_sub end base) base end

-- `DisjointMemoryRegion`: the field `_regions`.
abbrev pub DisjointMemoryRegion : Type 0
DisjointMemoryRegion = List MemoryRegion

abbrev pub follows : Option ℕ → List MemoryRegion → Bool
follows last_end [] = true
follows none (r ∷ rs) = follows (some r.end) rs
follows (some last_end) (r ∷ rs) = leb last_end r.base && follows (some r.end) rs

-- `_check`, after which the list stands.
unfoldable pub check : DisjointMemoryRegion → Result DisjointMemoryRegion
check rs = do guard (follows none rs) assertion; ok rs

-- The new region goes before the first one that starts above its end, else to the end of the list.
unfoldable pub place : ℕ → ℕ → List MemoryRegion → List MemoryRegion
place base end [] = record { base = base; end = end } ∷ []
place base end (r ∷ rs) =
    if ltb end r.base then record { base = base; end = end } ∷ r ∷ rs else r ∷ place base end rs

unfoldable pub insert_region : ℕ → ℕ → DisjointMemoryRegion → Result DisjointMemoryRegion
unfolding place check
insert_region base end rs = check (place base end rs)

-- What is left of a region that holds the range: nothing, an end, a start, or both.
unfoldable pub cut : ℕ → ℕ → MemoryRegion → List MemoryRegion
cut base end r =
    if (r.base == base) && (r.end == end)
    then []
    else if r.base == base
    then record { base = end; end = r.end } ∷ []
    else if r.end == end
    then record { base = r.base; end = base } ∷ []
    else record { base = r.base; end = base } ∷ record { base = end; end = r.end } ∷ []

abbrev holds : ℕ → ℕ → MemoryRegion → Bool
holds base end r = leb r.base base && leb end r.end

unfoldable pub remove_first : ℕ → ℕ → List MemoryRegion → Option (List MemoryRegion)
unfolding cut
remove_first base end [] = none
remove_first base end (r ∷ rs) = elim (holds base end r) [
  | true ↦ some (cut base end r ++ rs)
  | false ↦ elim (remove_first base end rs) [ none ↦ none | some rest ↦ some (r ∷ rest) ]
]

unfoldable pub remove_region : ℕ → ℕ → DisjointMemoryRegion → Result DisjointMemoryRegion
unfolding remove_first check
remove_region base end rs = elim (remove_first base end rs) [
  | none ↦ err value_error
  | some rest ↦ check rest
]

-- `DisjointMemoryRegion.aligned_power_of_two_regions`.
unfoldable pub split_all : ℕ → ℕ → DisjointMemoryRegion → Result (List MemoryRegion)
unfolding aligned_power_of_two_regions
split_all kernel_virtual_base max_bits [] = ok []
split_all kernel_virtual_base max_bits (r ∷ rs) = do
  first ← aligned_power_of_two_regions kernel_virtual_base max_bits r
  rest ← split_all kernel_virtual_base max_bits rs
  ok (first ++ rest)

-- `size <= region.size and region.base >= lower_bound`; the size of the region is written out, so
-- that a region whose end lies below its base fits nothing.
abbrev pub fits : ℕ → ℕ → MemoryRegion → Bool
fits size lower_bound r = leb (r.base + size) r.end && leb lower_bound r.base

unfoldable pub first_fit : ℕ → ℕ → List MemoryRegion → Option ℕ
first_fit size lower_bound [] = none
first_fit size lower_bound (r ∷ rs) =
    if fits size lower_bound r then some r.base else first_fit size lower_bound rs

unfoldable pub allocate_from : ℕ → ℕ → DisjointMemoryRegion → Result (ℕ × DisjointMemoryRegion)
unfolding first_fit remove_region
allocate_from size lower_bound rs = elim (first_fit size lower_bound rs) [
  | none ↦ err value_error
  | some base ↦ do rest ← remove_region base (base + size) rs; ok (base, rest)
]

-- `allocate` is the same search with no lower bound.
unfoldable pub allocate : ℕ → DisjointMemoryRegion → Result (ℕ × DisjointMemoryRegion)
unfolding allocate_from
allocate size rs = allocate_from size 0 rs
