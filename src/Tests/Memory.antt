-- ===== src/Tests/Memory.antt =====
-- Runs of the memory regions of tool/sel4coreplat/util.py.
use sel4cp.Prelude.{
  List, ℕ, ◌≡◌, true, false, refl, arith, ◌||◌, [], ◌∷◌, ok, err, assertion, value_error, ◌⊎◌,
  Returns, All,
}
use sel4cp.Words.{machine_sub, paddr_to_kernel_vaddr, msb, lsb, kernel_vaddr_to_paddr}
use sel4cp.Memory.{
  MemoryRegion, DisjointMemoryRegion, insert_region, remove_region, allocate_from, split_all,
  aligned_power_of_two_regions,
}
use sel4cp.Memory.Cover.{covers, inside, IsOrdered}
use sel4cp.Memory.SplitAll.{split_all-covers}
use sel4cp.Memory.Split.{Tiles, IsBlock, aligned_power_of_two_regions-IsSplit}
use sel4cp.Memory.Insert.{has_room, insert_region_lem, insert_region-adjacent}
use sel4cp.Memory.Remove.{is_held, Removed, remove_region_lem}
use sel4cp.Memory.Allocate.{has_fit, Allocated, allocate_from_lem}

abbrev two_regions : DisjointMemoryRegion
two_regions = record { base = 16; end = 32 } ∷ record { base = 64; end = 96 } ∷ []

two_regions-IsOrdered : IsOrdered 0 two_regions
two_regions-IsOrdered = (omega arith, omega arith, (omega arith, omega arith, tt))

split_run :
    aligned_power_of_two_regions 0 47 (record { base = 4; end = 24 })
    ≡ ok (
        record { base = 4; end = 8 }
        ∷ record { base = 8; end = 16 }
        ∷ record { base = 16; end = 24 }
        ∷ [])
unfolding aligned_power_of_two_regions machine_sub paddr_to_kernel_vaddr msb lsb
    kernel_vaddr_to_paddr
split_run = refl

remove_run :
    remove_region 20 28 two_regions
    ≡ ok (
        record { base = 16; end = 20 }
        ∷ record { base = 28; end = 32 }
        ∷ record { base = 64; end = 96 }
        ∷ [])
unfolding remove_region
remove_run = refl

aligned_power_of_two_regions-IsSplit_example :
    Returns
      (λ rs. Tiles 4 24 rs × All (IsBlock 0 47) rs)
      (aligned_power_of_two_regions 0 47 (record { base = 4; end = 24 }))
aligned_power_of_two_regions-IsSplit_example =
    aligned_power_of_two_regions-IsSplit 0 47 (record { base = 4; end = 24 }) (omega arith)
      (omega arith)

insert_region_lem_example :
    ((has_room 40 48 two_regions ≡ false) × (insert_region 40 48 two_regions ≡ err assertion))
    ⊎ ((has_room 40 48 two_regions ≡ true)
        × ((after : DisjointMemoryRegion) × (insert_region 40 48 two_regions ≡ ok after)
            × IsOrdered 0 after
            × ((a : ℕ) → covers after a ≡ (inside 40 48 a || covers two_regions a))))
insert_region_lem_example = insert_region_lem 40 48 two_regions (omega arith) two_regions-IsOrdered

insert_region-adjacent_example : insert_region 48 64 two_regions ≡ err assertion
insert_region-adjacent_example =
    insert_region-adjacent 48 64 1 two_regions (omega arith) two_regions-IsOrdered refl refl

remove_region_lem_example :
    ((is_held 20 28 two_regions ≡ false) × (remove_region 20 28 two_regions ≡ err value_error))
    ⊎ ((is_held 20 28 two_regions ≡ true)
        × ((rest : DisjointMemoryRegion) × (remove_region 20 28 two_regions ≡ ok rest)
            × Removed 20 28 0 two_regions rest))
remove_region_lem_example = remove_region_lem 20 28 two_regions (omega arith) two_regions-IsOrdered

allocate_from_lem_example :
    ((has_fit 32 20 two_regions ≡ false) × (allocate_from 32 20 two_regions ≡ err value_error))
    ⊎ ((has_fit 32 20 two_regions ≡ true)
        × ((r : ℕ × DisjointMemoryRegion) × (allocate_from 32 20 two_regions ≡ ok r)
            × Allocated 32 20 two_regions r))
allocate_from_lem_example = allocate_from_lem 32 20 two_regions two_regions-IsOrdered

split_all-covers_example :
    (bs : List MemoryRegion) × (split_all 0 47 two_regions ≡ ok bs)
    × All (IsBlock 0 47) bs
    × IsOrdered 0 bs
    × ((a : ℕ) → covers bs a ≡ covers two_regions a)
split_all-covers_example =
    split_all-covers 0 47 two_regions two_regions-IsOrdered
      ((λ h. omega arith), ((λ h. omega arith), tt))
