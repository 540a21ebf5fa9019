-- ===== src/Tests/Builder.antt =====
-- Runs of the init system of tool/sel4coreplat/__main__.py.
use sel4cp.Prelude.{
  ℕ, ◌^◌, true, false, ◌≡◌, refl, arith, List, [], ◌∷◌, none, ok, err, value_error,
}
use sel4cp.Words.{msb, lsb}
use sel4cp.Kernel.Types.{
  KernelConfig, UntypedObject, fixed_object_size, tcb_object, small_page_object,
}
use sel4cp.Kernel.Allocator.{KernelAllocation, KernelObjectAllocator, alloc}
use sel4cp.Builder.InitSystem.{InitSystem, FixedUntypedAlloc, KernelObject}
use sel4cp.Builder.InitSystem.Fixed.{place_fixed, allocate_fixed_objects}
use sel4cp.Builder.InitSystem.Objects.{allocate_objects}
use sel4cp.Builder.InitSystem.Batches.{Made, allocate_objects_lem}
use sel4cp.Builder.InitSystem.Advanced.{Advanced}
use sel4cp.Builder.InitSystem.Reachable.{fixed_step, Reaches, here, further, Reaches-Advanced}
use sel4cp.Builder.InitSystem.Padding.{
  Pads, FixedMade, allocate_fixed_objects_lem, allocate_fixed_objects-zero,
}

abbrev config : KernelConfig
config = record {
  word_size = 64;
  minimum_page_size = 4096;
  paddr_user_device_top = 2 ^ 40;
  kernel_frame_size = 4096;
  init_cnode_bits = 12;
  cap_address_bits = 64;
  fan_out_limit = 2;
}

abbrev normal_object : UntypedObject
normal_object = record {
  cap = 7;
  region = record { base = 0x4000; end = 0x8000 };
  is_device = false;
}

abbrev allocator_at : ℕ → ℕ → List KernelAllocation → KernelObjectAllocator
allocator_at idx point allocations = record {
  allocation_idx = idx;
  untyped =
      record { untyped_object = normal_object; allocation_point = point; allocations = allocations }
      ∷ [];
}

abbrev device : ℕ → FixedUntypedAlloc
device base = record {
  ut = record { cap = 9; region = record { base = base; end = 0x100000 }; is_device = true };
  watermark = base;
}

abbrev system : ℕ → InitSystem
system base = record {
  cnode_cap = 2;
  cnode_mask = 2 ^ 32;
  kernel_config = config;
  koa = allocator_at 0 0 [];
  invocations = [];
  cap_slot = 40;
  last_fixed_address = 0;
  device_untyped = device base ∷ [];
  cap_address_names = [];
  objects = [];
}

abbrev three_tcbs : KernelAllocation
three_tcbs = record { untyped_cap_address = 7; phys_addr = 0x4000; allocation_order = 1 }

three_allocated :
    alloc 0x800 3 (system 0x2000).koa ≡ ok (three_tcbs, allocator_at 1 0x1800 (three_tcbs ∷ []))
unfolding alloc
three_allocated = refl

allocate_objects_lem_example :
    (r : List KernelObject × InitSystem) × (allocate_objects tcb_object
        ("a" ∷ "b" ∷ "c" ∷ [])
        none
        (system 0x2000)
      ≡ ok r)
    × Made tcb_object 0x800 3 three_tcbs (system 0x2000) r
unfolding fixed_object_size
allocate_objects_lem_example =
    allocate_objects_lem tcb_object 0x800 0 ("a" ∷ "b" ∷ "c" ∷ []) none (system 0x2000) three_tcbs
      (allocator_at 1 0x1800 (three_tcbs ∷ [])) (omega arith) refl three_allocated

allocate_fixed_objects_lem_example :
    (bits : List ℕ) × (made : List KernelObject) × (after : InitSystem) × (allocate_fixed_objects
        0x9000 small_page_object 1
        ("page" ∷ [])
        (system 0x2000)
      ≡ ok (made, after))
    × Pads 0x2000 0x9000 bits
    × FixedMade 0x9000 small_page_object 4096 "page" (device 0x2000) (system 0x2000) bits made after
unfolding fixed_object_size
allocate_fixed_objects_lem_example =
    allocate_fixed_objects_lem 0x9000 small_page_object 4096 "page" (device 0x2000) (system 0x2000)
      (omega arith) refl refl (omega arith) (omega arith)

allocate_fixed_objects-zero_example :
    allocate_fixed_objects 0x9000 small_page_object 1 ("page" ∷ []) (system 0) ≡ err value_error
unfolding fixed_object_size
allocate_fixed_objects-zero_example =
    allocate_fixed_objects-zero 0x9000 small_page_object 4096 "page" (device 0) (system 0)
      (omega arith) refl refl refl (omega arith)

-- A page at 0x2000, where the watermark is, and one at 0x4000, behind a padding.
abbrev after_first : List KernelObject × InitSystem
after_first = place_fixed 0x2000 small_page_object 4096 "first" (device 0x2000) [] (system 0x2000)

first_made :
    allocate_fixed_objects 0x2000 small_page_object 1 ("first" ∷ []) (system 0x2000)
    ≡ ok after_first
unfolding allocate_fixed_objects fixed_object_size
first_made = refl

abbrev moved : FixedUntypedAlloc
moved = record (device 0x2000) { watermark = 0x3000 }

abbrev after_second : List KernelObject × InitSystem
after_second = place_fixed 0x4000 small_page_object 4096 "second" moved (0x1000 ∷ []) after_first.1

second_made :
    allocate_fixed_objects 0x4000 small_page_object 1 ("second" ∷ []) after_first.1
    ≡ ok after_second
unfolding allocate_fixed_objects fixed_object_size msb lsb
second_made = refl

two_pages : Reaches (system 0x2000) after_second.1
two_pages =
    further (fixed_step 0x2000 small_page_object 1 ("first" ∷ []) after_first.0 first_made) (
      further (fixed_step 0x4000 small_page_object 1 ("second" ∷ []) after_second.0 second_made)
        here)

Reaches-Advanced_example : Advanced (system 0x2000) after_second.1
Reaches-Advanced_example = Reaches-Advanced (system 0x2000) after_second.1 (omega arith) two_pages
