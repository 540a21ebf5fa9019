-- ===== src/Tests/Loader.antt =====
-- Runs of tool/sel4coreplat/loader.py: page tables for a kernel of two segments, an image of two
-- regions, and the end of `Loader.__init__` with an initial task, up to the copied memory.
use sel4cp.Prelude.{
  ℕ, ◌+◌, ◌-◌, ◌^◌, ◌≡◌, ◌↔◌, refl, arith, none, some, List, [], ◌∷◌, Result, ok, err, drop, pos,
  get_elem?, length, inr, All, negsuc,
}
use sel4cp.Bytes.{pack, word_bytes}
use sel4cp.Words.{round_up, kb}
use sel4cp.Memory.{MemoryRegion, size}
use sel4cp.Elf.Types.{ElfSegment, ElfFile, pt_load}
use sel4cp.Loader.Tables.{PageTables, page_tables}
use sel4cp.Loader.Tables.Walk.{walk_lower, walk_upper, identity_window, kernel_window}
use sel4cp.Loader.Tables.Translate.{page_tables-translate}
use sel4cp.Loader.Overlap.{
  Region, check_region, check_from, NonOverlapping, check_non_overlapping,
  check_non_overlapping-NonOverlapping,
}
use sel4cp.Loader.Image.{KernelSpan, finish, Loader}
use sel4cp.Loader.Write.Copied.{Holds, ram, copy_loop, finish-copy_loop}
use sel4cp.Loader.Write.{write_image, header_values, region_table}

abbrev kernel_vaddr : ℕ
kernel_vaddr = 2 ^ 64 - 2 ^ 39 + 0x60000000

page_tables-translate_example :
    (tables : PageTables) × (page_tables 0x70001000 0x70002000 0x70003000 kernel_vaddr 0x60000000
      ≡ ok tables)
    × (walk_lower 0x70001000 tables 0x1234 ≡ identity_window 0x1234)
    × (walk_upper 0x70002000 0x70003000 tables (kernel_vaddr + 0x5000)
        ≡ kernel_window kernel_vaddr 0x60000000 (kernel_vaddr + 0x5000))
page_tables-translate_example =
    page_tables-translate 0x70001000 0x70002000 0x70003000 kernel_vaddr 0x60000000 0x1234
      (kernel_vaddr + 0x5000) (omega arith, omega arith) (omega arith, omega arith)
      (omega arith, omega arith) (omega arith) (omega arith) (omega arith) (omega arith)
      (omega arith)

abbrev segment_at : ℕ → ℕ → ElfSegment
segment_at vaddr paddr = record {
  header = record {
    type_ = pt_load;
    offset = 0;
    vaddr = vaddr;
    paddr = paddr;
    filesz = 3;
    memsz = 3;
    flags = 7;
    align = 1;
  };
  contents = 1 ∷ 2 ∷ 3 ∷ [];
}

-- The second segment is below the first.
abbrev kernel_segments : List ElfSegment
kernel_segments =
    segment_at (kernel_vaddr + 0x1000) 0x60001000 ∷ segment_at kernel_vaddr 0x60000000 ∷ []

abbrev span : KernelSpan
span = record {
  first_vaddr = kernel_vaddr;
  last_vaddr = kernel_vaddr + 0x200000;
  first_paddr = 0x60000000;
  p_v_offset = pos (2 ^ 64 - 2 ^ 39);
}

check_non_overlapping-NonOverlapping_example :
    check_non_overlapping ((0x1000, 1 ∷ 2 ∷ []) ∷ (0x1001, 3 ∷ []) ∷ []) ≡ ok tt
    ↔ NonOverlapping ((0x1000, 1 ∷ 2 ∷ []) ∷ (0x1001, 3 ∷ []) ∷ [])
check_non_overlapping-NonOverlapping_example =
    check_non_overlapping-NonOverlapping ((0x1000, 1 ∷ 2 ∷ []) ∷ (0x1001, 3 ∷ []) ∷ [])

abbrev small : Loader
small = record {
  word_bytes = 8;
  image = 7 ∷ 7 ∷ [];
  regions = (0x1000, 1 ∷ 2 ∷ []) ∷ (0x800, 3 ∷ []) ∷ [];
  header = record {
    magic = 0x5e14dead14de5ead;
    flags = 0;
    kernel_entry = 0x1000;
    ui_p_reg_start = 0x800;
    ui_p_reg_end = 0x1000;
    pv_offset = negsuc 0x7ff;
    v_entry = 0x1000;
    extra_device_addr_p = 0;
    extra_device_size = 0;
    num_regions = 2;
  };
}

abbrev returned : Result (List ℕ) → List ℕ
returned (ok bytes) = bytes
returned (err e) = []

abbrev small_file : List ℕ
unfolding write_image header_values region_table pack word_bytes
small_file = returned (write_image small)

small_written : write_image small ≡ ok small_file
unfolding write_image header_values region_table pack word_bytes
small_written = refl

-- A kernel and an initial task, for the end of `Loader.__init__`.
abbrev kernel_elf : ElfFile
kernel_elf = record {
  segments = kernel_segments;
  symbols = [];
  word_size = 64;
  entry = kernel_vaddr;
}

abbrev task_elf : ElfFile
task_elf = record {
  segments = segment_at 0x8a000000 0x8a000000 ∷ [];
  symbols = [];
  word_size = 64;
  entry = 0x8a000000;
}

abbrev reserved : MemoryRegion
reserved = record { base = 0x60200000; end = 0x60300000 }

abbrev loaded : List Region
loaded = (0x60000000, 1 ∷ 2 ∷ 3 ∷ []) ∷ (0x60400000, 4 ∷ 5 ∷ []) ∷ (0x60500000, 6 ∷ []) ∷ []

abbrev boot : Loader
boot = record {
  word_bytes = 8;
  image = 7 ∷ 7 ∷ [];
  regions = loaded;
  header = record {
    magic = 0x5e14dead14de5ead;
    flags = 0;
    kernel_entry = kernel_vaddr;
    ui_p_reg_start = 0x60400000;
    ui_p_reg_end = 0x60401000;
    pv_offset = negsuc 0x29bfffff;
    v_entry = 0x8a000000;
    extra_device_addr_p = 0x60200000;
    extra_device_size = 0x100000;
    num_regions = 3;
  };
}

finish-boot :
    finish kernel_elf kernel_elf task_elf
      (segment_at 0x8a000000 0x8a000000)
      0x60400000
      reserved
      (7 ∷ 7 ∷ [])
      loaded
    ≡ ok boot
unfolding finish check_non_overlapping check_from check_region round_up kb size
finish-boot = refl

abbrev boot_file : List ℕ
unfolding write_image header_values region_table pack word_bytes
boot_file = returned (write_image boot)

boot_written : write_image boot ≡ ok boot_file
unfolding write_image header_values region_table pack word_bytes
boot_written = refl

-- The file lies in memory at 0x70000000, behind which there is nothing else.
abbrev boot_memory : ℕ → ℕ
boot_memory a = elim (get_elem? (drop 2 boot_file) (a - 0x70000000)) [ none ↦ 0 | some b ↦ b ]

boot_memory_held : ram boot_memory 0x70000000 (length (drop 2 boot_file)) ≡ drop 2 boot_file
unfolding ram boot_file
boot_memory_held = refl

finish-copy_loop_example :
    (after : ℕ → ℕ) × (copy_loop 8 0x70000000 (length (drop 2 boot_file)) 4 0 boot_memory
      ≡ ok after)
    × All (Holds after) loaded
unfolding boot_file
finish-copy_loop_example =
    finish-copy_loop kernel_elf kernel_elf task_elf (segment_at 0x8a000000 0x8a000000) 0x60400000
      reserved (7 ∷ 7 ∷ []) loaded boot boot_file 0x70000000 boot_memory finish-boot boot_written
      boot_memory_held (omega arith) (omega arith) (omega arith, (omega arith, (omega arith, tt)))
      (inr (omega arith), (inr (omega arith), (inr (omega arith), tt)))
