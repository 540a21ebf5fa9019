-- ===== src/Tests/Placement.antt =====
-- Runs of the placing of programs and of the bootstrap, for a program of one page.
use sel4cp.Prelude.{ℕ, ◌+◌, ◌^◌, ◌≤◌, ◌≡◌, refl, arith, true, false, List, [], ◌∷◌, Result, ok, err}
use sel4cp.Words.{round_up, round_down}
use sel4cp.Memory.{MemoryRegion, DisjointMemoryRegion, size, allocate_from}
use sel4cp.Builder.Regions.{
  phys_mem_region_from_elf, phys_mem_regions_from_elf, virt_mem_region_from_elf,
  virt_mem_regions_from_elf,
}
use sel4cp.Kernel.Types.{KernelConfig, UntypedObject}
use sel4cp.Kernel.Allocator.{KernelObjectAllocator, alloc}
use sel4cp.Builder.Placement.{InitialRegions, initial_regions, place_programs}
use sel4cp.Builder.Placement.Inside.{TilesAll, place_programs-Inside}
use sel4cp.Builder.Bootstrap.{Bootstrapped, bootstrap, retype_table, map_table}
use sel4cp.Builder.Bootstrap.Table.{TableMapped, bootstrap-range}
use sel4cp.Tests.Elf.{tiny}

abbrev available : DisjointMemoryRegion
available = record { base = 0x60010000; end = 0x60100000 } ∷ []

abbrev boot : MemoryRegion
boot = record { base = 0x60000000; end = 0x60010000 }

abbrev placed_regions : InitialRegions
placed_regions = record {
  reserved_region = record { base = 0x60010000; end = 0x60013000 };
  invocation_table_region = record { base = 0x60010000; end = 0x60012000 };
  initial_task_phys_region = record { base = 0x60013000; end = 0x60014000 };
  initial_task_virt_region = record { base = 0x200000; end = 0x201000 };
}

initial_regions_run :
    initial_regions 0x1000 0x2000 tiny (tiny ∷ []) (available, boot) ≡ ok placed_regions
unfolding initial_regions phys_mem_region_from_elf phys_mem_regions_from_elf allocate_from size
    round_up round_down virt_mem_region_from_elf virt_mem_regions_from_elf
initial_regions_run = refl

place_programs-Inside_example :
    let placed = place_programs 0x1000 0x60012000 (tiny ∷ []) in
    TilesAll 0x60012000 placed.1 placed.0
    × (placed.1 ≤ 0x60013000)
    × (placed_regions.invocation_table_region.base ≡ placed_regions.reserved_region.base)
    × (0x60013000 ≤ 0x60013000)
    × (0x60010000 ≤ 0x60010000)
place_programs-Inside_example =
    place_programs-Inside 0x2000 tiny (tiny ∷ []) available boot placed_regions
      (((refl, refl), tt), tt) initial_regions_run

abbrev config : KernelConfig
config = record {
  word_size = 64;
  minimum_page_size = 4096;
  paddr_user_device_top = 2 ^ 40;
  kernel_frame_size = 4096;
  init_cnode_bits = 12;
  cap_address_bits = 64;
  fan_out_limit = 256;
}

abbrev untyped : ℕ → ℕ → UntypedObject
untyped cap base = record {
  cap = cap;
  region = record { base = base; end = base + 0x10000 };
  is_device = true;
}

abbrev koa : KernelObjectAllocator
koa = record {
  allocation_idx = 0;
  untyped =
      record {
        untyped_object = record (untyped 7 0x40000) { is_device = false };
        allocation_point = 0;
        allocations = [];
      }
      ∷ [];
}

abbrev objects : List UntypedObject
objects = untyped 9 0x60010000 ∷ []

abbrev nothing : Bootstrapped
nothing = record {
  cnodes = [];
  table_pages = record { retypes = []; allocations = []; cap_slot = 0 };
  table_maps = [];
  koa = koa;
  cap_slot = 0;
}

abbrev value : Result Bootstrapped → Bootstrapped
value (ok b) = b
value (err e) = nothing

abbrev made : Bootstrapped
made = value (bootstrap config objects 20 64 0x60010000 0x2000 koa)

bootstrap_run : bootstrap config objects 20 64 0x60010000 0x2000 koa ≡ ok made
unfolding bootstrap alloc retype_table size map_table round_up
bootstrap_run = refl

slots_used : made.cap_slot ≡ 3
unfolding bootstrap alloc retype_table size map_table round_up
slots_used = refl

bootstrap-range_example : TableMapped config objects 20 0x60010000 2 1 made
unfolding size round_up
bootstrap-range_example =
    bootstrap-range config objects 20 64 0x60010000 0x2000 koa made (omega arith) (omega arith) room
      bootstrap_run
  where
    room : 2 ≤ 16
    room = omega arith
