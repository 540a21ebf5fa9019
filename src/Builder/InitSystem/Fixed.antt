-- ===== src/Builder/InitSystem/Fixed.antt =====
-- `allocate_fixed_objects` of `InitSystem`: objects at given addresses of device memory.
use Prim.Native.String.{String}
use sel4cp.Prelude.{
  ℕ, zero, suc, ◌+◌, ◌-◌, bit_or, Bool, true, false, ◌&&◌, min_ℤ, Option, none, some, List, [], ◌∷◌,
  ◌++◌, Result, ok, err, assertion, exception, index_error, out_of_fuel, guard, raise_if, ◌>>=◌,
  ◌>>◌, ltb, leb, ◌==◌, if◌then◌else◌, length,
}
use sel4cp.Words.{msb, lsb, shift_one}
use sel4cp.Invocation.{Command}
use sel4cp.Kernel.Types.{fixed_object_size, untyped_object_type}
use sel4cp.Builder.InitSystem.{FixedUntypedAlloc, KernelObject, InitSystem, retype, log2}

-- The loop that pads from the watermark: each size is a power of two. A round pads at least one
-- byte, so the bytes bound the rounds.
unfoldable pub padding_sizes : ℕ → ℕ → ℕ → Result (List ℕ)
padding_sizes zero wm left = if left == 0 then ok [] else err out_of_fuel
padding_sizes (suc fuel) wm left = elim (left == 0) [
  | true ↦ ok []
  | false ↦ do
    sz ← shift_one (min_ℤ (lsb wm) (msb left))
    rest ← padding_sizes fuel (wm + sz) (left - sz)
    ok (sz ∷ rest)
]

-- One invocation and one slot for each padding object.
abbrev pub pad_all : ℕ → ℕ → ℕ → List ℕ → List Command
pad_all ut_cap cnode_cap slot [] = []
pad_all ut_cap cnode_cap slot (sz ∷ sizes) =
    retype ut_cap untyped_object_type (log2 sz) cnode_cap slot 1
    ∷ pad_all ut_cap cnode_cap (slot + 1) sizes

-- `address in ut`.
abbrev pub in_untyped : ℕ → FixedUntypedAlloc → Bool
in_untyped address u = leb u.ut.region.base address && ltb address u.ut.region.end

abbrev pub find_untyped : ℕ → List FixedUntypedAlloc → Option FixedUntypedAlloc
find_untyped address [] = none
find_untyped address (u ∷ us) = if in_untyped address u then some u else find_untyped address us

-- The same allocator with its watermark moved.
abbrev pub move_watermark : ℕ → ℕ → List FixedUntypedAlloc → List FixedUntypedAlloc
move_watermark address mark [] = []
move_watermark address mark (u ∷ us) =
    if in_untyped address u
    then record u { watermark = mark } ∷ us
    else u ∷ move_watermark address mark us

-- `FIXED_OBJECT_SIZES[object_type]` after `assert object_type in FIXED_OBJECT_SIZES`.
abbrev pub size_of_fixed : ℕ → Result ℕ
size_of_fixed object_type = elim (fixed_object_size object_type) [
  | none ↦ err assertion
  | some size ↦ ok size
]

abbrev pub find_or_raise : ℕ → List FixedUntypedAlloc → Result FixedUntypedAlloc
find_or_raise address us = elim (find_untyped address us) [ none ↦ err exception | some u ↦ ok u ]

abbrev pub first_name : List String → Result String
first_name [] = err index_error
first_name (name ∷ names) = ok name

-- The state after the object of a fixed address is made behind its padding.
abbrev pub place_fixed :
    ℕ → ℕ → ℕ → String → FixedUntypedAlloc → List ℕ → InitSystem → List KernelObject × InitSystem
place_fixed phys_address object_type alloc_size name u sizes s =
    let object_cap = s.cap_slot + length sizes in
    let cap_address = bit_or s.cnode_mask object_cap in
    let kernel_objects =
      record {
        object_type = object_type;
        cap_slot = object_cap;
        cap_addr = cap_address;
        phys_addr = phys_address;
        name = name;
      }
      ∷ [] in
    (
      kernel_objects,
      record s {
        invocations =
            s.invocations
            ++ pad_all u.ut.cap s.cnode_cap s.cap_slot sizes
            ++ retype u.ut.cap object_type 0 s.cnode_cap object_cap 1 ∷ [];
        cap_slot = object_cap + 1;
        last_fixed_address = phys_address + alloc_size;
        device_untyped = move_watermark phys_address (phys_address + alloc_size) s.device_untyped;
        cap_address_names = (cap_address, name) ∷ s.cap_address_names;
        objects = s.objects ++ kernel_objects;
      },
    )

unfoldable pub allocate_fixed_objects :
    ℕ → ℕ → ℕ → List String → InitSystem → Result (List KernelObject × InitSystem)
unfolding padding_sizes
allocate_fixed_objects phys_address object_type count names s = do
  guard (leb s.last_fixed_address phys_address) assertion
  alloc_size ← size_of_fixed object_type
  guard (count == length names) assertion
  u ← find_or_raise phys_address s.device_untyped
  raise_if (ltb phys_address u.watermark) exception
  let left = phys_address - u.watermark
  sizes ← padding_sizes left u.watermark left
  name ← first_name names
  ok (place_fixed phys_address object_type alloc_size name u sizes s)
