-- ===== src/Builder/Placement/Inside.antt =====
-- The programs' segments lie in the reserved region behind the table of invocations.
use sel4cp.Prelude.{
  ℕ, ◌+◌, ◌-◌, ◌*◌, ◌/◌, ◌%◌, ◌≤◌, ◌≡◌, refl, subst, List, [], ◌∷◌, ok, ok_injective, assertion,
  ltb, >>=-eq-ok, guard-eq-ok, All, length, arith, Bool-cases, inl, inr, map,
}
use sel4cp.Words.Align.{round_lem}
use sel4cp.Memory.{MemoryRegion, DisjointMemoryRegion, size, allocate_from}
use sel4cp.Memory.Allocate.{allocate_from-above}
use sel4cp.Elf.Types.{ElfFile, ElfSegment, is_loadable, mem_size, virt_addr, phys_addr}
use sel4cp.Builder.Regions.{
  whole_pages, phys_mem_regions_from_elf, phys_mem_region_from_elf, virt_mem_region_from_elf,
}
use sel4cp.Builder.Placement.{
  sum_sizes, pd_elf_size, InitialRegions, initial_regions, PlacedSegment, base_vaddr, end_vaddr,
  place_segments, place_programs,
}

-- A segment whose contents are as long as its memory and whose addresses have the same place in their
-- pages.
abbrev pub IsRegular : ElfSegment → Type 0
IsRegular seg =
    (length seg.contents ≡ mem_size seg) × (phys_addr seg % 0x1000 ≡ virt_addr seg % 0x1000)

-- Segments one behind the other from `first` to `last`, each in whole pages that hold its contents.
abbrev pub Tiles : ℕ → ℕ → List PlacedSegment → Type 0
Tiles first last [] = first ≡ last
Tiles first last (s ∷ ss) =
    (s.phys_addr ≡ first)
    × (length s.contents ≤ s.aligned_size)
    × (s.page_count * 0x1000 ≡ s.aligned_size)
    × Tiles (first + s.aligned_size) last ss

abbrev pub TilesAll : ℕ → ℕ → List (List PlacedSegment) → Type 0
TilesAll first last [] = first ≡ last
TilesAll first last (ss ∷ sss) = (mid : ℕ) × Tiles first mid ss × TilesAll mid last sss

-- The size of the pages of a segment is the same at its physical and its virtual address.
same_size :
    (seg : ElfSegment)
    → IsRegular seg
    → (size (whole_pages 0x1000 (phys_addr seg) (length seg.contents))
        ≡ end_vaddr 0x1000 seg - base_vaddr 0x1000 seg)
      × (length seg.contents ≤ end_vaddr 0x1000 seg - base_vaddr 0x1000 seg)
      × ((end_vaddr 0x1000 seg - base_vaddr 0x1000 seg) / 0x1000 * 0x1000
          ≡ end_vaddr 0x1000 seg - base_vaddr 0x1000 seg)
unfolding size
same_size seg (len, place) =
    let (u1, u2, u3, d1, d2, d3) = round_lem (phys_addr seg) 0x1000 (omega arith) in
    let (a1, a2, a3, _, _, _) =
      round_lem (phys_addr seg + length seg.contents) 0x1000 (omega arith) in
    let (_, _, _, e1, e2, e3) = round_lem (virt_addr seg) 0x1000 (omega arith) in
    let (b1, b2, b3, _, _, _) = round_lem (virt_addr seg + mem_size seg) 0x1000 (omega arith) in
    (omega arith, omega arith, omega arith)

-- The regions of the segments of one program.
abbrev regions_of : List ElfSegment → List MemoryRegion
regions_of segs = map (λ seg. whole_pages 0x1000 (phys_addr seg) (length seg.contents)) segs

place_segments-Tiles :
    (segs : List ElfSegment) (first : ℕ)
    → All IsRegular segs
    → Tiles first (place_segments 0x1000 first segs).1 (place_segments 0x1000 first segs).0
      × ((place_segments 0x1000 first segs).1 ≤ first + sum_sizes (regions_of segs))
unfolding place_segments
place_segments-Tiles [] first h = (refl, omega arith)
place_segments-Tiles (seg ∷ segs) first h =
    let (same, holds, whole) = same_size seg h.0 in
    let next = first + (end_vaddr 0x1000 seg - base_vaddr 0x1000 seg) in
    elim (Bool-cases (is_loadable seg)) [
      | inl loaded ↦
          let (tiles, bound) = place_segments-Tiles segs next h.1 in
          rw loaded ((refl, holds, whole, tiles), omega (arith, bound, same))
      | inr other ↦
          let (tiles, bound) = place_segments-Tiles segs first h.1 in
          rw other (tiles, omega (arith, bound))
    ]

place_programs-TilesAll :
    (elves : List ElfFile) (first : ℕ) {total : ℕ}
    → All (λ elf. All IsRegular elf.segments) elves
    → pd_elf_size 0x1000 elves ≡ ok total
    → TilesAll first (place_programs 0x1000 first elves).1 (place_programs 0x1000 first elves).0
      × ((place_programs 0x1000 first elves).1 ≤ first + total)
unfolding place_programs pd_elf_size phys_mem_regions_from_elf
place_programs-TilesAll [] first h e = let z = ok_injective e in (refl, omega (arith, z))
place_programs-TilesAll (elf ∷ elves) first h e =
    let (rest, summed, same) = >>=-eq-ok (pd_elf_size 0x1000 elves) _ e in
    let total = ok_injective same in
    let (tiles, bound) = place_segments-Tiles elf.segments first h.0 in
    let next = (place_segments 0x1000 first elf.segments).1 in
    let (more, limit) = place_programs-TilesAll elves next h.1 summed in
    ((next, tiles, more), omega (arith, bound, limit, total))

-- Where the initial regions are found, the pages have 4 KiB and every segment has contents as long as
-- its memory and the same place in its page at both addresses: the segments of all programs lie one
-- behind the other from the end of the table of invocations on, each in whole pages that hold its
-- contents, and inside the reserved region; the initial task lies behind it, and all of it above the
-- kernel's boot region.
pub place_programs-Inside :
    (table : ℕ) (sysinit_elf : ElfFile) (elves : List ElfFile) (available : DisjointMemoryRegion)
    (boot : MemoryRegion) (out : InitialRegions)
    → All (λ elf. All IsRegular elf.segments) elves
    → initial_regions 0x1000 table sysinit_elf elves (available, boot) ≡ ok out
    → let placed = place_programs 0x1000 out.invocation_table_region.end elves in
      TilesAll out.invocation_table_region.end placed.1 placed.0
      × (placed.1 ≤ out.reserved_region.end)
      × (out.invocation_table_region.base ≡ out.reserved_region.base)
      × (out.reserved_region.end ≤ out.initial_task_phys_region.base)
      × (boot.end ≤ out.reserved_region.base)
unfolding initial_regions
place_programs-Inside table sysinit_elf elves available boot out regular h =
    let (task_region, _, h1) = >>=-eq-ok (phys_mem_region_from_elf sysinit_elf 0x1000) _ h in
    let (elf_size, summed, h2) = >>=-eq-ok (pd_elf_size 0x1000 elves) _ h1 in
    let ((base, left), found, h3) =
      >>=-eq-ok (allocate_from (table + elf_size) boot.end available) _ h2 in
    let (_, h4) = guard-eq-ok (ltb boot.base base) assertion _ h3 in
    let ((task, rest), behind, h5) =
      >>=-eq-ok (allocate_from (size task_region) (base + (table + elf_size)) left) _ h4 in
    let (_, h6) = guard-eq-ok (ltb base task) assertion _ h5 in
    let (virt, _, same) = >>=-eq-ok (virt_mem_region_from_elf sysinit_elf 0x1000) _ h6 in
    let above = allocate_from-above (table + elf_size) boot.end base available left found in
    let higher =
      allocate_from-above (size task_region) (base + (table + elf_size)) task left rest behind in
    let (tiles, bound) = place_programs-TilesAll elves (base + table) regular summed in
    subst
      (λ r.
        let placed = place_programs 0x1000 r.invocation_table_region.end elves in
        TilesAll r.invocation_table_region.end placed.1 placed.0
        × (placed.1 ≤ r.reserved_region.end)
        × (r.invocation_table_region.base ≡ r.reserved_region.base)
        × (r.reserved_region.end ≤ r.initial_task_phys_region.base)
        × (boot.end ≤ r.reserved_region.base))
      (ok_injective same) (tiles, omega (arith, bound), refl, higher, above)
