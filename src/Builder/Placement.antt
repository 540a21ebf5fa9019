-- ===== src/Builder/Placement.antt =====
-- Where the builder of tool/sel4coreplat/__main__.py has the memory of the initial task, of the table
-- of invocations and of the programs: the reserved region and the segments that are placed in it.
pub mod Inside
use sel4cp.Prelude.{
  ℕ, ◌+◌, ◌-◌, ◌*◌, ◌/◌, Bool, true, false, List, [], ◌∷◌, ◌++◌, Result, ok, err, assertion, guard,
  ◌>>=◌, ◌>>◌, ltb, if◌then◌else◌,
}
use sel4cp.Words.{round_up, round_down}
use sel4cp.Memory.{MemoryRegion, DisjointMemoryRegion, size, allocate_from}
use sel4cp.Elf.Types.{
  ElfFile, ElfSegment, is_loadable, is_readable, is_writable, is_executable, mem_size, virt_addr,
}
use sel4cp.Description.{Perms}
use sel4cp.Builder.Regions.{
  phys_mem_regions_from_elf, phys_mem_region_from_elf, virt_mem_region_from_elf,
}

abbrev pub sum_sizes : List MemoryRegion → ℕ
sum_sizes [] = 0
sum_sizes (r ∷ rs) = size r + sum_sizes rs

-- The bytes of all programs in whole pages.
unfoldable pub pd_elf_size : ℕ → List ElfFile → Result ℕ
pd_elf_size page [] = ok 0
pd_elf_size page (elf ∷ elves) = do
  regions ← phys_mem_regions_from_elf elf page
  rest ← pd_elf_size page elves
  ok (sum_sizes regions + rest)

-- The regions that are fixed before the kernel's boot is emulated to its end.
pub record InitialRegions : Type 0 where
  pub reserved_region : MemoryRegion
  pub invocation_table_region : MemoryRegion
  pub initial_task_phys_region : MemoryRegion
  pub initial_task_virt_region : MemoryRegion

-- From what the emulated part of the boot leaves: the available memory and the kernel's boot region.
unfoldable pub initial_regions :
    ℕ → ℕ → ElfFile → List ElfFile → DisjointMemoryRegion × MemoryRegion → Result InitialRegions
unfolding pd_elf_size
initial_regions page invocation_table_size sysinit_elf pd_elf_files (available, boot) = do
  task_region ← phys_mem_region_from_elf sysinit_elf page
  let initial_task_size = size task_region
  elf_size ← pd_elf_size page pd_elf_files
  let reserved_size = invocation_table_size + elf_size
  (reserved_base, left) ← allocate_from reserved_size boot.end available
  guard (ltb boot.base reserved_base) assertion
  (task_base, rest) ← allocate_from initial_task_size (reserved_base + reserved_size) left
  guard (ltb reserved_base task_base) assertion
  virt_region ← virt_mem_region_from_elf sysinit_elf page
  ok (record {
    reserved_region = record { base = reserved_base; end = reserved_base + reserved_size };
    invocation_table_region = record {
      base = reserved_base;
      end = reserved_base + invocation_table_size;
    };
    initial_task_phys_region = record { base = task_base; end = task_base + initial_task_size };
    initial_task_virt_region = virt_region;
  })

-- A segment of a program: where its bytes are loaded, and the memory region and the map that are made
-- for it. The names, which are put together from the domain's and the number of the segment, are left
-- out.
pub record PlacedSegment : Type 0 where
  pub phys_addr : ℕ
  pub contents : List ℕ
  pub aligned_size : ℕ
  pub page_count : ℕ
  pub vaddr : ℕ
  pub perms : Perms

abbrev pub base_vaddr : ℕ → ElfSegment → ℕ
base_vaddr page seg = round_down (virt_addr seg) page

abbrev pub end_vaddr : ℕ → ElfSegment → ℕ
end_vaddr page seg = round_up (virt_addr seg + mem_size seg) page

abbrev pub place_segment : ℕ → ℕ → ElfSegment → PlacedSegment
place_segment page phys_addr_next seg = record {
  phys_addr = phys_addr_next;
  contents = seg.contents;
  aligned_size = end_vaddr page seg - base_vaddr page seg;
  page_count = (end_vaddr page seg - base_vaddr page seg) / 0x1000;
  vaddr = base_vaddr page seg;
  perms = record {
    readable = is_readable seg;
    writable = is_writable seg;
    executable = is_executable seg;
  };
}

-- The segments of one program, with the next free physical address.
unfoldable pub place_segments : ℕ → ℕ → List ElfSegment → List PlacedSegment × ℕ
place_segments page phys_addr_next [] = ([], phys_addr_next)
place_segments page phys_addr_next (seg ∷ segs) =
    let placed = place_segment page phys_addr_next seg in
    let skipped = place_segments page phys_addr_next segs in
    let rest = place_segments page (phys_addr_next + placed.aligned_size) segs in
    if is_loadable seg then (placed ∷ rest.0, rest.1) else skipped

-- The segments of all programs, a list for each.
unfoldable pub place_programs : ℕ → ℕ → List ElfFile → List (List PlacedSegment) × ℕ
unfolding place_segments
place_programs page phys_addr_next [] = ([], phys_addr_next)
place_programs page phys_addr_next (elf ∷ elves) =
    let one = place_segments page phys_addr_next elf.segments in
    let rest = place_programs page one.1 elves in (one.0 ∷ rest.0, rest.1)
