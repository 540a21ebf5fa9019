-- ===== src/Loader/Image.antt =====
-- `Loader.__init__`: the boot image that is built.
pub mod Kernel
pub mod Built
use Prim.Native.String.{String}
use sel4cp.Prelude.{
  ℕ, zero, suc, ◌+◌, ◌-◌, ◌*◌, ◌^◌, Bool, true, false, Option, none, some, List, [], ◌∷◌, ◌++◌,
  Result, ok, err, assertion, exception, struct_error, guard, raise_if, ◌>>=◌, ◌>>◌, leb, ltb, not,
  ◌==◌, if◌then◌else◌, length, ℤ, pos, negsuc,
}
use sel4cp.Words.{kb, mb, round_up}
use sel4cp.Memory.{MemoryRegion, size}
use sel4cp.Bytes.{Code, num, Format, pack}
use sel4cp.Elf.Types.{ElfSegment, ElfFile, is_loadable, mem_size, phys_addr, virt_addr}
use sel4cp.Elf.Read.{from_path}
use sel4cp.Elf.Symbols.{find_symbol, splice}
use sel4cp.Loader.Tables.{PageTables, setup_pagetables}
use sel4cp.Loader.Overlap.{Region, check_non_overlapping}

-- A difference of two addresses, which may be negative.
abbrev pub diff : ℕ → ℕ → ℤ
diff a b = if leb b a then pos (a - b) else negsuc (b - a - 1)

abbrev pub same_int : ℤ → ℤ → Bool
same_int (pos a) (pos b) = a == b
same_int (pos a) (negsuc b) = false
same_int (negsuc a) (pos b) = false
same_int (negsuc a) (negsuc b) = a == b

pub record LoaderHeader : Type 0 where
  pub magic : ℕ
  pub flags : ℕ
  pub kernel_entry : ℕ
  pub ui_p_reg_start : ℕ
  pub ui_p_reg_end : ℕ
  pub pv_offset : ℤ
  pub v_entry : ℕ
  pub extra_device_addr_p : ℕ
  pub extra_device_size : ℕ
  pub num_regions : ℕ

-- `word_bytes` is the size of a field of `_header_struct_fmt` and `_region_struct_fmt`.
pub record Loader : Type 0 where
  pub word_bytes : ℕ
  pub image : List ℕ
  pub regions : List Region
  pub header : LoaderHeader

-- The first segment that is loadable.
unfoldable pub loadable_segment : List ElfSegment → Result ElfSegment
loadable_segment [] = err exception
loadable_segment (seg ∷ segs) = if is_loadable seg then ok seg else loadable_segment segs

-- `kernel_first_vaddr`, `kernel_last_vaddr`, `kernel_first_paddr` and `kernel_p_v_offset`, which
-- are None together.
pub record KernelSpan : Type 0 where
  pub first_vaddr : ℕ
  pub last_vaddr : ℕ
  pub first_paddr : ℕ
  pub p_v_offset : ℤ

abbrev pub span_end : ElfSegment → ℕ
span_end seg = round_up (virt_addr seg + mem_size seg) (mb 2)

abbrev pub widen : Option KernelSpan → ElfSegment → Result KernelSpan
widen none seg = ok (record {
  first_vaddr = virt_addr seg;
  last_vaddr = span_end seg;
  first_paddr = phys_addr seg;
  p_v_offset = diff (virt_addr seg) (phys_addr seg);
})
widen (some s) seg = do
  raise_if (not (same_int s.p_v_offset (diff (virt_addr seg) (phys_addr seg)))) exception
  ok (record {
    first_vaddr = if ltb (virt_addr seg) s.first_vaddr then virt_addr seg else s.first_vaddr;
    last_vaddr =
        if ltb s.last_vaddr (virt_addr seg + mem_size seg) then span_end seg else s.last_vaddr;
    first_paddr = if ltb (phys_addr seg) s.first_paddr then phys_addr seg else s.first_paddr;
    p_v_offset = s.p_v_offset;
  })

-- The loop over the kernel's segments.
unfoldable pub kernel_span : Option KernelSpan → List ElfSegment → Result (Option KernelSpan)
kernel_span found [] = ok found
kernel_span found (seg ∷ segs) =
    if is_loadable seg
    then (do s ← widen found seg; kernel_span (some s) segs)
    else kernel_span found segs

unfoldable pub kernel_regions : List ElfSegment → List Region
kernel_regions [] = []
kernel_regions (seg ∷ segs) =
    if is_loadable seg
    then (phys_addr seg, seg.contents) ∷ kernel_regions segs
    else kernel_regions segs

-- One round of the loop over `pagetable_vars`, on the image.
unfoldable pub set_variable : ElfFile → ℕ → String → List ℕ → List ℕ → Result (List ℕ)
set_variable elf base var_name var_data image = do
  (var_addr, var_size) ← find_symbol var_name elf
  guard (var_size == length var_data) assertion
  guard (ltb base var_addr) assertion
  guard (leb (var_addr - base) (length image)) assertion
  ok (splice (var_addr - base) var_data image)

unfoldable pub set_variables : ElfFile → ℕ → PageTables → List ℕ → Result (List ℕ)
set_variables elf base tables image0 = do
  image1 ← set_variable elf base "boot_lvl0_lower" tables.boot_lvl0_lower image0
  image2 ← set_variable elf base "boot_lvl1_lower" tables.boot_lvl1_lower image1
  image3 ← set_variable elf base "boot_lvl0_upper" tables.boot_lvl0_upper image2
  image4 ← set_variable elf base "boot_lvl1_upper" tables.boot_lvl1_upper image3
  set_variable elf base "boot_lvl2_upper" tables.boot_lvl2_upper image4

abbrev pub found_span : Option KernelSpan → Result KernelSpan
found_span none = err assertion
found_span (some s) = ok s

-- `assert len(initial_task_elf.segments) == 1`, and that segment.
abbrev pub only_segment : List ElfSegment → Result ElfSegment
only_segment [] = err assertion
only_segment (seg ∷ []) = if is_loadable seg then ok seg else err assertion
only_segment (seg ∷ other ∷ segs) = err assertion

abbrev pub task_paddr : Option ℕ → ElfSegment → ℕ
task_paddr none seg = phys_addr seg
task_paddr (some base) seg = base

abbrev pub magic_of : ℕ → ℕ
magic_of word_size = if word_size == 32 then 0x5e14dead else 0x5e14dead14de5ead

-- The end of `Loader.__init__`, behind the page tables.
unfoldable pub finish :
    ElfFile
    → ElfFile
    → ElfFile
    → ElfSegment
    → ℕ
    → MemoryRegion
    → List ℕ
    → List Region
    → Result Loader
finish elf kernel_elf initial_task_elf segment first_paddr reserved_region image all = do
  let first_vaddr = virt_addr segment
  let last_vaddr = round_up (virt_addr segment + mem_size segment) (kb 4)
  let ui_p_reg_end = last_vaddr + first_paddr - first_vaddr
  guard (ltb first_paddr ui_p_reg_end) assertion
  check_non_overlapping all
  ok (record {
    word_bytes = if elf.word_size == 32 then 4 else 8;
    image = image;
    regions = all;
    header = record {
      magic = magic_of elf.word_size;
      flags = 0;
      kernel_entry = kernel_elf.entry;
      ui_p_reg_start = first_paddr;
      ui_p_reg_end = ui_p_reg_end;
      pv_offset = diff first_paddr first_vaddr;
      v_entry = initial_task_elf.entry;
      extra_device_addr_p = reserved_region.base;
      extra_device_size = size reserved_region;
      num_regions = length all;
    };
  })

abbrev pub all_regions : ElfFile → ElfSegment → ℕ → List Region → List Region
all_regions kernel_elf segment first_paddr regions =
    (kernel_regions kernel_elf.segments ++ (first_paddr, segment.contents) ∷ []) ++ regions

-- `Loader.__init__` behind the reading of the loader's file.
unfoldable pub loader :
    ElfFile → ElfFile → ElfFile → Option ℕ → MemoryRegion → List Region → Result Loader
loader elf kernel_elf initial_task_elf initial_task_phys_base reserved_region regions = do
  loader_segment ← loadable_segment elf.segments
  raise_if (not (virt_addr loader_segment == elf.entry)) exception
  span ← kernel_span none kernel_elf.segments
  kernel ← found_span span
  segment ← only_segment initial_task_elf.segments
  let first_paddr = task_paddr initial_task_phys_base segment
  tables ← setup_pagetables elf kernel.first_vaddr kernel.first_paddr
  image ← set_variables elf (virt_addr loader_segment) tables loader_segment.contents
  finish elf kernel_elf initial_task_elf segment first_paddr reserved_region image
      (all_regions kernel_elf segment first_paddr regions)

-- `Loader.__init__`. `decode` is Python's decoding of UTF-8.
unfoldable pub load :
    (List ℕ → Result String)
    → List ℕ
    → ElfFile
    → ElfFile
    → Option ℕ
    → MemoryRegion
    → List Region
    → Result Loader
load decode loader_file kernel_elf initial_task_elf initial_task_phys_base reserved_region regions =
    do
      elf ← from_path decode loader_file
      loader elf kernel_elf initial_task_elf initial_task_phys_base reserved_region regions
