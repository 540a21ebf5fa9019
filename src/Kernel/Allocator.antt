-- ===== src/Kernel/Allocator.antt =====
-- `KernelAllocation`, `UntypedAllocator` and `KernelObjectAllocator` of
-- tool/sel4coreplat/__main__.py: first fit over the untyped objects of normal memory, each of which
-- hands out its space from the bottom up.
pub mod Room
pub mod Fresh
use sel4cp.Prelude.{
  ℕ, suc, ◌+◌, ◌-◌, ◌*◌, ◌%◌, Bool, true, false, Option, none, some, List, [], ◌∷◌, ◌++◌, Result,
  ok, err, assertion, exception, guard, ◌>>=◌, ◌>>◌, leb, if◌then◌else◌,
}
use sel4cp.Words.{round_up, is_power_of_two}
use sel4cp.Kernel.Types.{UntypedObject}

pub record KernelAllocation : Type 0 where
  pub untyped_cap_address : ℕ
  pub phys_addr : ℕ
  pub allocation_order : ℕ

pub record UntypedAllocator : Type 0 where
  pub untyped_object : UntypedObject
  pub allocation_point : ℕ
  pub allocations : List KernelAllocation

abbrev pub base : UntypedAllocator → ℕ
base ut = ut.untyped_object.region.base

abbrev pub end : UntypedAllocator → ℕ
end ut = ut.untyped_object.region.end

pub record KernelObjectAllocator : Type 0 where
  pub allocation_idx : ℕ
  pub untyped : List UntypedAllocator

abbrev normal_untyped : List UntypedObject → List UntypedAllocator
normal_untyped [] = []
normal_untyped (ut ∷ uts) =
    if ut.is_device
    then normal_untyped uts
    else record { untyped_object = ut; allocation_point = 0; allocations = [] } ∷ normal_untyped uts

-- `KernelObjectAllocator.__init__`.
unfoldable pub new : List UntypedObject → KernelObjectAllocator
new untyped_objects = record { allocation_idx = 0; untyped = normal_untyped untyped_objects }

-- Where an allocation of the size would start.
unfoldable pub start_of : ℕ → UntypedAllocator → ℕ
unfolding round_up
start_of size ut = round_up (base ut + ut.allocation_point) size

abbrev pub has_space : ℕ → ℕ → UntypedAllocator → Bool
has_space size count ut = leb (start_of size ut + count * size) (end ut)

abbrev pub granted : ℕ → ℕ → UntypedAllocator → KernelAllocation
granted size idx ut = record {
  untyped_cap_address = ut.untyped_object.cap;
  phys_addr = start_of size ut;
  allocation_order = idx;
}

abbrev pub advanced : ℕ → ℕ → ℕ → UntypedAllocator → UntypedAllocator
advanced size count idx ut = record ut {
  allocation_point = start_of size ut - base ut + count * size;
  allocations = ut.allocations ++ granted size idx ut ∷ [];
}

-- The loop of `alloc` over the untyped objects.
unfoldable pub alloc_in :
    ℕ → ℕ → ℕ → List UntypedAllocator → Option (KernelAllocation × List UntypedAllocator)
unfolding start_of
alloc_in size count idx [] = none
alloc_in size count idx (ut ∷ uts) = elim (has_space size count ut) [
  | true ↦ some (granted size idx ut, advanced size count idx ut ∷ uts)
  | false ↦ elim (alloc_in size count idx uts) [
    | none ↦ none
    | some (allocation, rest) ↦ some (allocation, ut ∷ rest)
  ]
]

-- `KernelObjectAllocator.alloc`.
unfoldable pub alloc :
    ℕ → ℕ → KernelObjectAllocator → Result (KernelAllocation × KernelObjectAllocator)
unfolding is_power_of_two alloc_in
alloc size count koa = do
  power ← is_power_of_two size
  guard power assertion
  elim (alloc_in size count (suc koa.allocation_idx) koa.untyped) [
    | none ↦ err exception
    | some (allocation, uts) ↦
        ok (allocation, record { allocation_idx = suc koa.allocation_idx; untyped = uts })
  ]

-- A sequence of calls of `alloc`, with the physical range of each.
unfoldable pub alloc_all :
    List (ℕ × ℕ) → KernelObjectAllocator → Result (List (ℕ × ℕ) × KernelObjectAllocator)
unfolding alloc
alloc_all [] koa = ok ([], koa)
alloc_all ((size, count) ∷ requests) koa = do
  (allocation, koa') ← alloc size count koa
  (ranges, koa'') ← alloc_all requests koa'
  ok ((allocation.phys_addr, allocation.phys_addr + count * size) ∷ ranges, koa'')
