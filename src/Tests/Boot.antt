-- ===== src/Tests/Boot.antt =====
-- A run of the emulated boot.
use sel4cp.Prelude.{◌≡◌, refl, arith, [], ◌∷◌, Result, err, ok}
use sel4cp.Memory.{MemoryRegion, size}
use sel4cp.Words.{machine_sub, paddr_to_kernel_vaddr, msb, lsb}
use sel4cp.Kernel.Types.{KernelConfig, KernelBootInfo}
use sel4cp.Kernel.Boot.{
  KernelMemory, KernelPartialBootInfo, number_caps, kernel_partial_boot, emulate_kernel_boot,
}
use sel4cp.Kernel.Boot.Partial.{Booted, kernel_partial_boot-Booted}
use sel4cp.Kernel.Allocator.Fresh.{AllApart}
use sel4cp.Kernel.Boot.Apart.{IsSane, emulate_kernel_boot-AllApart}

abbrev config : KernelConfig
config = record {
  word_size = 64;
  minimum_page_size = 4096;
  paddr_user_device_top = 0x1000000;
  kernel_frame_size = 4096;
  init_cnode_bits = 12;
  cap_address_bits = 64;
  fan_out_limit = 256;
}

abbrev memory : KernelMemory
memory = record {
  device_addrs = 0x8000 ∷ [];
  phys_mem = (0x100000, 0x800000) ∷ [];
  self_mem = (0x100000, 0x140000);
  boot_mem = record { base = 0x110000; end = 0x120000 };
}

abbrev booted : KernelPartialBootInfo
booted = record {
  device_memory =
      record { base = 0; end = 0x8000 }
      ∷ record { base = 0x9000; end = 0x100000 }
      ∷ record { base = 0x800000; end = 0x1000000 }
      ∷ [];
  normal_memory = record { base = 0x140000; end = 0x800000 } ∷ [];
  boot_region = record { base = 0x110000; end = 0x120000 };
}

partial_run : kernel_partial_boot config memory ≡ ok booted
unfolding kernel_partial_boot
partial_run = refl

kernel_partial_boot-Booted_example : Booted config memory booted
kernel_partial_boot-Booted_example =
    kernel_partial_boot-Booted config memory booted (omega arith, tt) (omega arith) partial_run

abbrev task : MemoryRegion
task = record { base = 0x200000; end = 0x204000 }

abbrev task_virt : MemoryRegion
task_virt = record { base = 0x400000; end = 0x404000 }

abbrev reserved : MemoryRegion
reserved = record { base = 0x240000; end = 0x250000 }

-- The boot information of a run, and an empty one where it raises.
abbrev info_of : Result KernelBootInfo → KernelBootInfo
info_of (ok i) = i
info_of (err e) = record {
  fixed_cap_count = 0;
  schedcontrol_cap = 0;
  paging_cap_count = 0;
  page_cap_count = 0;
  untyped_objects = [];
  first_available_cap = 0;
}

abbrev info : KernelBootInfo
info = info_of (emulate_kernel_boot config memory task task_virt reserved)

boot_run : emulate_kernel_boot config memory task task_virt reserved ≡ ok info
unfolding emulate_kernel_boot size machine_sub paddr_to_kernel_vaddr msb lsb number_caps
boot_run = refl

memory-IsSane : IsSane config memory task reserved
memory-IsSane = record {
  top = omega arith;
  ranges = (omega arith, tt);
  bounded = (omega arith, tt);
  self = omega arith;
  boot = omega arith;
  boot_low = omega arith;
  boot_high = omega arith;
  task = omega arith;
  range = omega arith;
}

emulate_kernel_boot-AllApart_example : AllApart info.untyped_objects
emulate_kernel_boot-AllApart_example =
    emulate_kernel_boot-AllApart config memory task task_virt reserved info memory-IsSane boot_run
