-- ===== src/Builder/Regions.antt =====
-- The memory of an ELF file in whole pages, and the badges (tool/sel4coreplat/__main__.py).
use sel4cp.Prelude.{
  ℕ, ◌+◌, List, [], ◌∷◌, Result, ok, err, assertion, guard, ◌>>=◌, ◌>>◌, ltb, ◌==◌, length, map,
}
use sel4cp.Words.{round_up, round_down}
use sel4cp.Memory.{MemoryRegion}
use sel4cp.Elf.Types.{ElfFile, phys_addr, virt_addr}

-- A region extended to whole pages.
abbrev pub whole_pages : ℕ → ℕ → ℕ → MemoryRegion
whole_pages alignment addr size = record {
  base = round_down addr alignment;
  end = round_up (addr + size) alignment;
}

unfoldable pub phys_mem_regions_from_elf : ElfFile → ℕ → Result (List MemoryRegion)
phys_mem_regions_from_elf elf alignment = do
  guard (ltb 0 alignment) assertion
  ok (map (λ seg. whole_pages alignment (phys_addr seg) (length seg.contents)) elf.segments)

unfoldable pub virt_mem_regions_from_elf : ElfFile → ℕ → Result (List MemoryRegion)
virt_mem_regions_from_elf elf alignment = do
  guard (ltb 0 alignment) assertion
  ok (map (λ seg. whole_pages alignment (virt_addr seg) (length seg.contents)) elf.segments)

-- The first of the regions, which are as many as the segments: one.
abbrev pub only_region : List MemoryRegion → Result MemoryRegion
only_region [] = err assertion
only_region (r ∷ rs) = ok r

unfoldable pub phys_mem_region_from_elf : ElfFile → ℕ → Result MemoryRegion
phys_mem_region_from_elf elf alignment = do
  guard (ltb 0 alignment) assertion
  guard (length elf.segments == 1) assertion
  regions ← phys_mem_regions_from_elf elf alignment
  only_region regions

unfoldable pub virt_mem_region_from_elf : ElfFile → ℕ → Result MemoryRegion
virt_mem_region_from_elf elf alignment = do
  guard (ltb 0 alignment) assertion
  guard (length elf.segments == 1) assertion
  regions ← virt_mem_regions_from_elf elf alignment
  only_region regions
