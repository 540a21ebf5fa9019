-- ===== src/Kernel/Boot/Image.antt =====
-- What the tool reads of memory from the kernel's ELF file (tool/sel4coreplat/sel4.py).
use sel4cp.Prelude.{
  ℕ, zero, suc, ◌+◌, ◌-◌, List, [], ◌∷◌, Result, ok, err, index_error, out_of_fuel, ◌>>=◌, ltb,
  if◌then◌else◌, drop,
}
use sel4cp.Bytes.{num, Format, unpack_from}
use sel4cp.Memory.{MemoryRegion}
use sel4cp.Elf.Types.{ElfSegment, ElfFile, phys_addr, virt_addr}
use sel4cp.Elf.Symbols.{find_symbol, get_data}
use sel4cp.Kernel.Types.{KernelBootInfo, KernelConfig}
use sel4cp.Kernel.Boot.{KernelMemory, emulate_kernel_boot}

-- `kernel_frame_t` and `p_region_t`.
abbrev pub kernel_frame_t : Format
kernel_frame_t = num 8 ∷ num 8 ∷ num 4 ∷ num 4 ∷ []

abbrev pub p_region_t : Format
p_region_t = num 8 ∷ num 8 ∷ []

-- The frame's address, where user level may not use it. Four fields have been unpacked.
abbrev pub add_frame : List ℕ → List ℕ → List ℕ
add_frame (paddr ∷ pptr ∷ xn ∷ zero ∷ []) frames = paddr ∷ frames
add_frame fields frames = frames

-- The loop over the frames, with as many rounds at most as there are bytes.
unfoldable pub device_frames : ℕ → ℕ → ℕ → List ℕ → Result (List ℕ)
device_frames zero offset size p_regs = if ltb offset size then err out_of_fuel else ok []
device_frames (suc fuel) offset size p_regs =
    let more = device_frames fuel (offset + 24) size p_regs in
    if ltb offset size
    then (do
      fields ← unpack_from kernel_frame_t (drop offset p_regs)
      frames ← more
      ok (add_frame fields frames))
    else ok []

unfoldable pub kernel_device_addrs : ElfFile → Result (List ℕ)
kernel_device_addrs kernel_elf = do
  (vaddr, size) ← find_symbol "kernel_device_frames" kernel_elf
  p_regs ← get_data vaddr size kernel_elf
  device_frames size 0 size p_regs

abbrev pub add_p_region : List ℕ → List (ℕ × ℕ) → List (ℕ × ℕ)
add_p_region (start ∷ end ∷ []) phys_mem = (start, end) ∷ phys_mem
add_p_region fields phys_mem = phys_mem

-- The loop over the regions.
unfoldable pub p_regions : ℕ → ℕ → ℕ → List ℕ → Result (List (ℕ × ℕ))
p_regions zero offset size p_regs = if ltb offset size then err out_of_fuel else ok []
p_regions (suc fuel) offset size p_regs =
    let more = p_regions fuel (offset + 16) size p_regs in
    if ltb offset size
    then (do
      fields ← unpack_from p_region_t (drop offset p_regs)
      phys_mem ← more
      ok (add_p_region fields phys_mem))
    else ok []

unfoldable pub kernel_phys_mem : ElfFile → Result (List (ℕ × ℕ))
kernel_phys_mem kernel_elf = do
  (vaddr, size) ← find_symbol "avail_p_regs" kernel_elf
  p_regs ← get_data vaddr size kernel_elf
  p_regions size 0 size p_regs

-- `segments[0]`.
abbrev pub first_segment : List ElfSegment → Result ElfSegment
first_segment [] = err index_error
first_segment (seg ∷ segs) = ok seg

-- The physical address of a symbol, from where the first segment lies. The symbols that are asked for
-- are the ends of parts of the kernel, which begins with that segment.
abbrev pub moved_symbol : ElfSegment → ℕ → ℕ
moved_symbol seg v = v + phys_addr seg - virt_addr seg

unfoldable pub kernel_self_mem : ElfFile → Result (ℕ × ℕ)
kernel_self_mem kernel_elf = do
  seg ← first_segment kernel_elf.segments
  ki_end ← find_symbol "ki_end" kernel_elf
  ok (phys_addr seg, moved_symbol seg ki_end.0)

unfoldable pub kernel_boot_mem : ElfFile → Result MemoryRegion
kernel_boot_mem kernel_elf = do
  seg ← first_segment kernel_elf.segments
  ki_boot_end ← find_symbol "ki_boot_end" kernel_elf
  ok (record { base = phys_addr seg; end = moved_symbol seg ki_boot_end.0 })

-- All that the boot reads.
unfoldable pub kernel_memory : ElfFile → Result KernelMemory
kernel_memory kernel_elf = do
  device_addrs ← kernel_device_addrs kernel_elf
  phys_mem ← kernel_phys_mem kernel_elf
  self_mem ← kernel_self_mem kernel_elf
  boot_mem ← kernel_boot_mem kernel_elf
  ok (record {
    device_addrs = device_addrs;
    phys_mem = phys_mem;
    self_mem = self_mem;
    boot_mem = boot_mem;
  })

-- The emulated boot of a kernel. The source reads between its steps, so that where several raise,
-- another one may be the first.
unfoldable pub boot_of_kernel :
    KernelConfig → ElfFile → MemoryRegion → MemoryRegion → MemoryRegion → Result KernelBootInfo
boot_of_kernel config kernel_elf phys virt reserved = do
  mem ← kernel_memory kernel_elf
  emulate_kernel_boot config mem phys virt reserved
