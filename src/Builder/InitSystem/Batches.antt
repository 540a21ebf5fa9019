-- ===== src/Builder/InitSystem/Batches.antt =====
-- Objects of the kernel's own memory: the batches of slots that are retyped into.
use Prim.Native.String.{String}
use sel4cp.Prelude.{
  ℕ, zero, suc, min, ◌+◌, ◌-◌, ◌*◌, ◌≤◌, ◌<◌, ◌≡◌, refl, sym, ap, ◌∙◌, Option, List, [], ◌∷◌, ◌++◌,
  map, arith, ok, Bool-cases, inl, inr, ◌==◌, length, All,
}
use sel4cp.Invocation.{Invocation, Command, untyped_retype}
use sel4cp.Kernel.Allocator.{KernelAllocation, KernelObjectAllocator, alloc}
use sel4cp.Builder.InitSystem.{InitSystem, KernelObject, retype}
use sel4cp.Builder.InitSystem.Objects.{
  object_sizes, retype_loop, objects_from, place_objects, allocate_objects,
}

abbrev pub range : ℕ → ℕ → List ℕ
range first zero = []
range first (suc n) = first ∷ range (first + 1) n

-- The slots that a retype invocation fills.
abbrev pub slots_in : Invocation → List ℕ
slots_in inv = elim inv [
  | untyped_retype ut object_type size_bits root index depth slot num ↦ range slot num
  | _ ↦ []
]

-- The slots that the retype invocations fill, in order.
abbrev pub slots_of : List Command → List ℕ
slots_of [] = []
slots_of (cmd ∷ cmds) = slots_in cmd.invocation ++ slots_of cmds

-- A retype of at least one and at most `limit` objects.
abbrev pub IsBatch : ℕ → ℕ → ℕ → Command → Type 0
IsBatch ut_cap kind limit cmd = elim cmd.invocation [
  | untyped_retype ut object_type size_bits root index depth slot num ↦
      (ut ≡ ut_cap) × (object_type ≡ kind) × (0 < num) × (num ≤ limit)
  | _ ↦ ⊥
]

pub range-append : (a m n : ℕ) → range a m ++ range (a + m) n ≡ range a (m + n)
range-append a zero n =
    let z : 0 + n ≡ n = omega arith in let e : a + 0 ≡ a = omega arith in rw (z, e) refl
range-append a (suc m) n =
    let z : suc m + n ≡ suc (m + n) = omega arith in
    let e : a + suc m ≡ a + 1 + m = omega arith in
    rw (z, e) (ap (λ t. a ∷ t) (range-append (a + 1) m n))

module _ (ut_cap kind api_size cnode_cap limit : ℕ) (live : 0 < limit) where
  pub retype_loop-IsBatch :
      (fuel slot left : ℕ)
      → left ≤ fuel
      → (calls : List Command) × (retype_loop ut_cap kind api_size cnode_cap limit fuel slot left
          ≡ ok calls)
        × (slots_of calls ≡ range slot left)
        × All (IsBatch ut_cap kind limit) calls
  unfolding retype_loop
  retype_loop-IsBatch zero slot left h =
      let z : left ≡ 0 = omega arith in ([], rw (z, retype_loop) refl, rw z refl, tt)
  retype_loop-IsBatch (suc fuel) slot left h = elim (Bool-cases (left == 0)) [
    | inl e ↦ let z : left ≡ 0 = ground arith in ([], rw (z, retype_loop) refl, rw z refl, tt)
    | inr more ↦
        let some_left : 0 < left = ground arith in
        let n = min left limit in
        let (calls, made, slots, batches) =
          retype_loop-IsBatch fuel (slot + n) (left - n) (omega arith) in
        let whole : n + (left - n) ≡ left = omega arith in
        (
          retype ut_cap kind api_size cnode_cap slot n ∷ calls,
          rw (more, made, retype_loop) refl,
          ap (λ t. range slot n ++ t) slots
              ∙ range-append slot n (left - n)
              ∙ ap (range slot) whole,
          ((refl, refl, omega arith, omega arith), batches),
        )
  ]

pub objects_from-slots :
    (kind mask size slot phys : ℕ) (names : List String)
    → map (λ o. o.cap_slot) (objects_from kind mask size slot phys names)
      ≡ range slot (length names)
unfolding objects_from
objects_from-slots kind mask size slot phys [] = refl
objects_from-slots kind mask size slot phys (name ∷ names) =
    ap (λ t. slot ∷ t) (objects_from-slots kind mask size (slot + 1) (phys + size) names)

-- Each object lies in the range of the allocation, the one behind the other.
abbrev pub Stacked : ℕ → ℕ → ℕ → List KernelObject → Type 0
Stacked size first last [] = first ≡ last
Stacked size first last (o ∷ os) = (o.phys_addr ≡ first) × Stacked size (first + size) last os

objects_from-Stacked :
    (kind mask size slot phys : ℕ) (names : List String)
    → Stacked size phys (phys + length names * size) (objects_from kind mask size slot phys names)
unfolding objects_from
objects_from-Stacked kind mask size slot phys [] = omega arith
objects_from-Stacked kind mask size slot phys (name ∷ names) =
    let e : phys + suc (length names) * size ≡ phys + size + length names * size = grind arith in
    (refl, rw e (objects_from-Stacked kind mask size (slot + 1) (phys + size) names))

-- What making objects owes: the objects have consecutive slots from the next free one, the new
-- invocations fill exactly these slots in batches, and the objects' addresses tile the allocation.
pub record Made (kind size count : ℕ) (granted : KernelAllocation) (s : InitSystem)
    (r : List KernelObject × InitSystem) : Type 0 where
  pub calls : List Command
  pub issued : r.1.invocations ≡ s.invocations ++ calls
  pub next_slot : r.1.cap_slot ≡ s.cap_slot + count
  pub recorded : r.1.objects ≡ s.objects ++ r.0
  pub slots : map (λ o. o.cap_slot) r.0 ≡ range s.cap_slot count
  pub filled : slots_of calls ≡ map (λ o. o.cap_slot) r.0
  pub batches : All (IsBatch granted.untyped_cap_address kind s.kernel_config.fan_out_limit) calls
  pub stacked : Stacked size granted.phys_addr (granted.phys_addr + count * size) r.0

-- Where the sizes are right and the allocator has space, making objects returns, for every fan-out
-- limit above 0: the retypes, none larger than the limit, fill exactly the slots of the recorded
-- objects, which are the next free ones, and the objects' addresses tile the allocation.
pub allocate_objects_lem :
    (kind alloc_size api_size : ℕ) (names : List String) (size : Option ℕ) (s : InitSystem)
    (granted : KernelAllocation) (koa : KernelObjectAllocator)
    → 0 < s.kernel_config.fan_out_limit
    → object_sizes kind size ≡ ok (alloc_size, api_size)
    → alloc alloc_size (length names) s.koa ≡ ok (granted, koa)
    → (r : List KernelObject × InitSystem) × (allocate_objects kind names size s ≡ ok r)
      × Made kind alloc_size (length names) granted s r
unfolding allocate_objects
allocate_objects_lem kind alloc_size api_size names size s granted koa live sized allocated =
    let count = length names in
    let (calls, made, filled, batches) =
      retype_loop-IsBatch granted.untyped_cap_address kind api_size s.cnode_cap
        s.kernel_config.fan_out_limit live count s.cap_slot count (omega arith) in
    let slots =
      objects_from-slots kind s.cnode_mask alloc_size s.cap_slot granted.phys_addr names in
    (
      place_objects count
          (objects_from kind s.cnode_mask alloc_size s.cap_slot granted.phys_addr names) koa calls
          s,
      rw (sized, allocated, made) refl,
      record {
        calls = calls;
        issued = refl;
        next_slot = refl;
        recorded = refl;
        slots = slots;
        filled = filled ∙ sym slots;
        batches = batches;
        stacked =
            objects_from-Stacked kind s.cnode_mask alloc_size s.cap_slot granted.phys_addr names;
      },
    )
