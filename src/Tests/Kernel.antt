-- ===== src/Tests/Kernel.antt =====
-- Runs of the kernel object allocator of tool/sel4coreplat/__main__.py.
use sel4cp.Prelude.{
  suc, ◌^◌, ◌≡◌, refl, arith, List, [], ◌∷◌, ok, err, exception, inl, ◌⊎◌, Ensures, false,
}
use sel4cp.Kernel.Types.{UntypedObject}
use sel4cp.Kernel.Allocator.{KernelAllocation, KernelObjectAllocator, new, alloc, alloc_all}
use sel4cp.Kernel.Allocator.Room.{HasRoom}
use sel4cp.Kernel.Allocator.Fresh.{
  AllApart, AllDisjoint, Granted, objects, alloc_lem, alloc_all-AllDisjoint,
}

abbrev two_untyped : List UntypedObject
two_untyped =
    record { cap = 7; region = record { base = 0x1000; end = 0x2000 }; is_device = false }
    ∷ record { cap = 8; region = record { base = 0x4000; end = 0x8000 }; is_device = false }
    ∷ []

abbrev fresh_allocator : KernelObjectAllocator
fresh_allocator = record {
  allocation_idx = 0;
  untyped =
      record {
        untyped_object = record {
          cap = 7;
          region = record { base = 0x1000; end = 0x2000 };
          is_device = false;
        };
        allocation_point = 0;
        allocations = [];
      }
      ∷ record {
        untyped_object = record {
          cap = 8;
          region = record { base = 0x4000; end = 0x8000 };
          is_device = false;
        };
        allocation_point = 0;
        allocations = [];
      }
      ∷ [];
}

new_run : new two_untyped ≡ fresh_allocator
unfolding new
new_run = refl

fresh_allocator-AllApart : AllApart (objects fresh_allocator.untyped)
fresh_allocator-AllApart = ((inl (omega arith), tt), (tt, tt))

alloc_lem_example :
    ((¬ HasRoom (2 ^ 11) 3 fresh_allocator.untyped)
      × (alloc (2 ^ 11) 3 fresh_allocator ≡ err exception))
    ⊎ (HasRoom (2 ^ 11) 3 fresh_allocator.untyped
        × ((allocation : KernelAllocation) × (koa : KernelObjectAllocator) × (alloc
                (2 ^ 11)
                3
                fresh_allocator
              ≡ ok (allocation, koa))
            × Granted (2 ^ 11) 3 fresh_allocator.untyped allocation koa.untyped
            × (koa.allocation_idx ≡ suc fresh_allocator.allocation_idx)))
alloc_lem_example = alloc_lem 11 3 fresh_allocator fresh_allocator-AllApart

alloc_all-AllDisjoint_example :
    Ensures (λ r. AllDisjoint r.0) (alloc_all ((0x800, 1) ∷ (0x1000, 2) ∷ []) fresh_allocator)
alloc_all-AllDisjoint_example =
    alloc_all-AllDisjoint ((0x800, 1) ∷ (0x1000, 2) ∷ []) fresh_allocator fresh_allocator-AllApart
