-- ===== src/Builder/InitSystem.antt =====
-- `InitSystem` of tool/sel4coreplat/__main__.py: the objects of the system and the retype
-- invocations that make them, with consecutive slots of the initial task's capability node.
pub mod Fixed
pub mod Padding
pub mod Objects
pub mod Batches
pub mod Advanced
pub mod Reachable
use Prim.Native.String.{String}
use sel4cp.Prelude.{
  ℕ, zero, suc, ◌+◌, ◌-◌, ◌*◌, min, bit_or, Bool, true, false, ◌&&◌, ◌||◌, min_ℤ, Option, none,
  some, List, [], ◌∷◌, ◌++◌, map, Result, ok, err, assertion, exception, index_error, out_of_fuel,
  guard, raise_if, ◌>>=◌, ◌>>◌, ltb, leb, ◌==◌, if◌then◌else◌, length,
}
use sel4cp.Words.{bit_length, msb, lsb, shift_one, is_power_of_two}
use sel4cp.Invocation.{Command, untyped_retype}
use sel4cp.Kernel.Types.{
  UntypedObject, KernelConfig, fixed_object_size, untyped_object_type, cnode_object,
  schedcontext_object, slot_size,
}
use sel4cp.Kernel.Allocator.{KernelObjectAllocator, alloc}

pub record FixedUntypedAlloc : Type 0 where
  pub ut : UntypedObject
  pub watermark : ℕ

pub record KernelObject : Type 0 where
  pub object_type : ℕ
  pub cap_slot : ℕ
  pub cap_addr : ℕ
  pub phys_addr : ℕ
  pub name : String

pub record InitSystem : Type 0 where
  pub cnode_cap : ℕ
  pub cnode_mask : ℕ
  pub kernel_config : KernelConfig
  pub koa : KernelObjectAllocator
  pub invocations : List Command
  pub cap_slot : ℕ
  pub last_fixed_address : ℕ
  pub device_untyped : List FixedUntypedAlloc
  pub cap_address_names : List (ℕ × String)
  pub objects : List KernelObject

-- `FixedUntypedAlloc(ut)`.
abbrev unused : UntypedObject → FixedUntypedAlloc
unused ut = record { ut = ut; watermark = ut.region.base }

-- `sorted` by `__lt__`: stable, by the bases.
abbrev insert_sorted : FixedUntypedAlloc → List FixedUntypedAlloc → List FixedUntypedAlloc
insert_sorted u [] = u ∷ []
insert_sorted u (v ∷ vs) =
    if ltb v.ut.region.base u.ut.region.base then v ∷ insert_sorted u vs else u ∷ v ∷ vs

abbrev device_sorted : List UntypedObject → List FixedUntypedAlloc
device_sorted [] = []
device_sorted (ut ∷ uts) =
    if ut.is_device then insert_sorted (unused ut) (device_sorted uts) else device_sorted uts

-- `InitSystem.__init__`.
unfoldable pub start :
    KernelConfig
    → ℕ
    → ℕ
    → ℕ
    → KernelObjectAllocator
    → List UntypedObject
    → List Command
    → List (ℕ × String)
    → InitSystem
start config cnode_cap cnode_mask first_slot koa untyped_objects invocations names = record {
  cnode_cap = cnode_cap;
  cnode_mask = cnode_mask;
  kernel_config = config;
  koa = koa;
  invocations = invocations;
  cap_slot = first_slot;
  last_fixed_address = 0;
  device_untyped = device_sorted untyped_objects;
  cap_address_names = names;
  objects = [];
}

-- A retype of `num` objects into the slots from `slot` on.
abbrev pub retype : ℕ → ℕ → ℕ → ℕ → ℕ → ℕ → Command
retype ut_cap object_type size_bits cnode_cap slot num = record {
  invocation = untyped_retype ut_cap object_type size_bits cnode_cap 1 1 slot num;
  repeated = none;
}

-- `==` of the dataclass `UntypedObject`.
abbrev same_bool : Bool → Bool → Bool
same_bool true b = b
same_bool false b = if b then false else true

abbrev same_untyped : UntypedObject → UntypedObject → Bool
same_untyped u v =
    (u.cap == v.cap)
    && (u.region.base == v.region.base)
    && (u.region.end == v.region.end)
    && same_bool u.is_device v.is_device

-- The first allocator of the untyped object, with its watermark moved to the address.
abbrev reserve_in : UntypedObject → ℕ → List FixedUntypedAlloc → Result (List FixedUntypedAlloc)
reserve_in ut phys_addr [] = err exception
reserve_in ut phys_addr (u ∷ us) =
    let rest = reserve_in ut phys_addr us in
    elim (same_untyped ut u.ut) [
      | true ↦ do
        guard (leb u.ut.region.base phys_addr && leb phys_addr u.ut.region.end) exception
        ok (record u { watermark = phys_addr } ∷ us)
      | false ↦ do us' ← rest; ok (u ∷ us')
    ]

unfoldable pub reserve : List (UntypedObject × ℕ) → InitSystem → Result InitSystem
reserve [] s = ok s
reserve ((ut, phys_addr) ∷ allocations) s = do
  device ← reserve_in ut phys_addr s.device_untyped
  reserve allocations (record s { device_untyped = device })

-- `int(log2(size))`, at the powers of two that the source applies it to.
unfoldable pub log2 : ℕ → ℕ
unfolding bit_length
log2 size = bit_length size - 1
