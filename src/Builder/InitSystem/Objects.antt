-- ===== src/Builder/InitSystem/Objects.antt =====
-- `allocate_objects` of `InitSystem`: objects of the kernel's own memory.
use Prim.Native.String.{String}
use sel4cp.Prelude.{
  ℕ, zero, suc, ◌+◌, ◌-◌, ◌*◌, min, bit_or, true, false, ◌||◌, Option, none, some, List, [], ◌∷◌,
  ◌++◌, Result, ok, err, assertion, exception, out_of_fuel, guard, ◌>>=◌, ◌>>◌, ◌==◌, if◌then◌else◌,
  length,
}
use sel4cp.Words.{is_power_of_two}
use sel4cp.Invocation.{Command}
use sel4cp.Kernel.Types.{fixed_object_size, cnode_object, schedcontext_object, slot_size}
use sel4cp.Kernel.Allocator.{KernelObjectAllocator, alloc}
use sel4cp.Builder.InitSystem.{KernelObject, InitSystem, retype, log2}

-- The bytes of one object, and its size in the invocation.
abbrev pub object_sizes : ℕ → Option ℕ → Result (ℕ × ℕ)
object_sizes object_type size = elim (fixed_object_size object_type) [
  | some alloc_size ↦ elim size [ none ↦ ok (alloc_size, 0) | some n ↦ err assertion ]
  | none ↦
      if (object_type == cnode_object) || (object_type == schedcontext_object)
      then elim size [
        | none ↦ err assertion
        | some n ↦ do power ← is_power_of_two n; guard power assertion; ok (n * slot_size, log2 n)
      ]
      else err exception
]

-- The loop that makes the objects in batches of at most the fan-out limit. As many rounds as
-- objects are enough where the limit is not 0; with a limit of 0 the source does not end.
unfoldable pub retype_loop : ℕ → ℕ → ℕ → ℕ → ℕ → ℕ → ℕ → ℕ → Result (List Command)
retype_loop ut_cap object_type api_size cnode_cap limit zero slot left =
    if left == 0 then ok [] else err out_of_fuel
retype_loop ut_cap object_type api_size cnode_cap limit (suc fuel) slot left = elim (left == 0) [
  | true ↦ ok []
  | false ↦ do
    let call_count = min left limit
    rest ←
        retype_loop ut_cap object_type api_size cnode_cap limit fuel (slot + call_count)
          (left - call_count)
    ok (retype ut_cap object_type api_size cnode_cap slot call_count ∷ rest)
]

-- The recorded objects, one for each name.
unfoldable pub objects_from : ℕ → ℕ → ℕ → ℕ → ℕ → List String → List KernelObject
objects_from object_type mask alloc_size slot phys_addr [] = []
objects_from object_type mask alloc_size slot phys_addr (name ∷ names) =
    record {
      object_type = object_type;
      cap_slot = slot;
      cap_addr = bit_or mask slot;
      phys_addr = phys_addr;
      name = name;
    }
    ∷ objects_from object_type mask alloc_size (slot + 1) (phys_addr + alloc_size) names

abbrev add_names : List KernelObject → List (ℕ × String) → List (ℕ × String)
add_names [] known = known
add_names (o ∷ os) known = add_names os ((o.cap_addr, o.name) ∷ known)

-- The state after the objects are made by the calls.
abbrev pub place_objects :
    ℕ
    → List KernelObject
    → KernelObjectAllocator
    → List Command
    → InitSystem
    → List KernelObject × InitSystem
place_objects count kernel_objects koa calls s = (
  kernel_objects,
  record s {
    koa = koa;
    invocations = s.invocations ++ calls;
    cap_slot = s.cap_slot + count;
    cap_address_names = add_names kernel_objects s.cap_address_names;
    objects = s.objects ++ kernel_objects;
  },
)

unfoldable pub allocate_objects :
    ℕ → List String → Option ℕ → InitSystem → Result (List KernelObject × InitSystem)
unfolding retype_loop objects_from alloc
allocate_objects object_type names size s = do
  let count = length names
  (alloc_size, api_size) ← object_sizes object_type size
  (allocation, koa) ← alloc alloc_size count s.koa
  calls ←
      retype_loop allocation.untyped_cap_address object_type api_size s.cnode_cap
        s.kernel_config.fan_out_limit count s.cap_slot count
  ok (
      place_objects count
        (objects_from object_type s.cnode_mask alloc_size s.cap_slot allocation.phys_addr names) koa
        calls s)
