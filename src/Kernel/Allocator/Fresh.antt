-- ===== src/Kernel/Allocator/Fresh.antt =====
-- Every allocation is aligned, lies in one untyped object, and meets none of the earlier ones.
use mathlib.Core.Path.{subst}
use sel4cp.Prelude.{
  ℕ, suc, ◌+◌, ◌*◌, ◌%◌, ◌^◌, ◌≤◌, ◌<◌, ◌≡◌, ◌⊎◌, inl, inr, refl, sym, ap, Bool, true, false, none,
  some, List, [], ◌∷◌, map, arith, ok, err, exception, Ensures, All, Bool-cases, Result-cases,
}
use sel4cp.Words.{is_power_of_two}
use sel4cp.Bits.{pow_pos}
use sel4cp.Words.Align.{round_lem, is_power_of_two-cases}
use sel4cp.Kernel.Types.{UntypedObject}
use sel4cp.Kernel.Allocator.Room.{has_any, HasRoom, has_any-HasRoom}
use sel4cp.Kernel.Allocator.{
  KernelAllocation, UntypedAllocator, KernelObjectAllocator, base, end, start_of, has_space,
  granted, advanced, alloc_in, alloc, alloc_all,
}

-- A range that meets no free space of an untyped object.
abbrev pub Avoids : ℕ → ℕ → UntypedAllocator → Type 0
Avoids a b ut = (b ≤ base ut + ut.allocation_point) ⊎ (end ut ≤ a)

abbrev pub Clear : ℕ → ℕ → List UntypedAllocator → Type 0
Clear a b = All (Avoids a b)

abbrev pub Apart : UntypedObject → UntypedObject → Type 0
Apart u v = (u.region.end ≤ v.region.base) ⊎ (v.region.end ≤ u.region.base)

-- No two untyped objects share memory.
abbrev pub AllApart : List UntypedObject → Type 0
AllApart [] = Unit
AllApart (u ∷ us) = All (Apart u) us × AllApart us

abbrev pub objects : List UntypedAllocator → List UntypedObject
objects = map (λ ut. ut.untyped_object)

-- The range lies in an untyped object with this cap.
abbrev pub LiesIn : ℕ → ℕ → ℕ → List UntypedObject → Type 0
LiesIn cap a b [] = ⊥
LiesIn cap a b (u ∷ us) =
    ((cap ≡ u.cap) × (u.region.base ≤ a) × (b ≤ u.region.end)) ⊎ LiesIn cap a b us

-- What an allocation owes, beside the allocators before and after.
pub record Granted (size count : ℕ) (uts : List UntypedAllocator) (allocation : KernelAllocation)
    (after : List UntypedAllocator) : Type 0 where
  pub aligned : allocation.phys_addr % size ≡ 0
  pub lies :
      LiesIn allocation.untyped_cap_address allocation.phys_addr
        (allocation.phys_addr + count * size)
        (objects uts)
  pub same_objects : objects after ≡ objects uts
  pub clear : Clear allocation.phys_addr (allocation.phys_addr + count * size) after
  pub fresh :
      (c d : ℕ)
      → Clear c d uts
      → (d ≤ allocation.phys_addr) ⊎ (allocation.phys_addr + count * size ≤ c)
  pub keeps : (c d : ℕ) → Clear c d uts → Clear c d after

module _ (size count idx : ℕ) (pos : 0 < size) where
  start_of_lem :
      (ut : UntypedAllocator)
      → (start_of size ut % size ≡ 0) × (base ut + ut.allocation_point ≤ start_of size ut)
  unfolding start_of
  start_of_lem ut =
      let facts = round_lem (base ut + ut.allocation_point) size pos in (facts.0, facts.1)

  -- A range inside one of several untyped objects avoids one that is apart from all of them.
  outside :
      (cap a b : ℕ) (ut : UntypedAllocator) (us : List UntypedObject)
      → LiesIn cap a b us
      → All (Apart ut.untyped_object) us
      → Avoids a b ut
  outside cap a b ut [] l h = absurd l
  outside cap a b ut (u ∷ us) (inl l) h = ground arith
  outside cap a b ut (u ∷ us) (inr l) h = outside cap a b ut us l h.1

  Clear-here :
      (ut : UntypedAllocator) (a b : ℕ) (uts : List UntypedAllocator)
      → base ut ≤ a
      → b ≤ end ut
      → All (Apart ut.untyped_object) (objects uts)
      → Clear a b uts
  Clear-here ut a b [] lo hi h = tt
  Clear-here ut a b (u ∷ uts) lo hi h = (ground arith, Clear-here ut a b uts lo hi h.1)

  alloc_in-Granted :
      (uts : List UntypedAllocator)
      → AllApart (objects uts)
      → has_any size count uts ≡ true
      → (allocation : KernelAllocation) × (after : List UntypedAllocator) × (alloc_in size count idx
            uts
          ≡ some (allocation, after))
        × Granted size count uts allocation after
  unfolding alloc_in
  alloc_in-Granted [] apart h = cc
  alloc_in-Granted (ut ∷ uts) apart h = elim (Bool-cases (has_space size count ut)) [
    | inl here ↦
        let start = start_of_lem ut in
        let top : start_of size ut + count * size ≤ end ut = ground arith in
        (
          granted size idx ut,
          advanced size count idx ut ∷ uts,
          rw (here, alloc_in) refl,
          record {
            aligned = start.0;
            lies = inl (refl, omega arith, top);
            same_objects = refl;
            clear = (
              inl (omega arith),
              Clear-here ut (start_of size ut) _ uts (omega arith) top apart.0,
            );
            fresh = λ c d k. ground (arith, k.0);
            keeps = λ c d k. (ground (arith, k.0), k.1);
          },
        )
    | inr later ↦
        let (allocation, after, found, g) = alloc_in-Granted uts apart.1 (ground arith) in
        (
          allocation,
          ut ∷ after,
          rw (later, found, alloc_in) refl,
          record {
            aligned = g.aligned;
            lies = inr g.lies;
            same_objects = ap (λ t. ut.untyped_object ∷ t) g.same_objects;
            clear = (outside _ _ _ ut (objects uts) g.lies apart.0, g.clear);
            fresh = λ c d k. g.fresh c d k.1;
            keeps = λ c d k. (k.0, g.keeps c d k.1);
          },
        )
  ]

  alloc_in-none :
      (uts : List UntypedAllocator)
      → has_any size count uts ≡ false
      → alloc_in size count idx uts ≡ none
  unfolding alloc_in
  alloc_in-none [] h = refl
  alloc_in-none (ut ∷ uts) h = ground (arith, alloc_in-none uts)

alloc-cases :
    (k count : ℕ) (koa : KernelObjectAllocator)
    → AllApart (objects koa.untyped)
    → (has_any (2 ^ k) count koa.untyped ≡ false → alloc (2 ^ k) count koa ≡ err exception)
      × (has_any (2 ^ k) count koa.untyped ≡ true
          → (allocation : KernelAllocation) × (koa' : KernelObjectAllocator) × (alloc
                (2 ^ k)
                count
                koa
              ≡ ok (allocation, koa'))
            × Granted (2 ^ k) count koa.untyped allocation koa'.untyped
            × (koa'.allocation_idx ≡ suc koa.allocation_idx))
unfolding alloc
alloc-cases k count koa apart =
    let power = is_power_of_two-cases.2 k in
    let idx = suc koa.allocation_idx in
    (
      (λ h. rw (power, alloc_in-none (2 ^ k) count idx (pow_pos k) koa.untyped h) refl),
      (λ h.
          let (allocation, after, found, g) =
            alloc_in-Granted (2 ^ k) count idx (pow_pos k) koa.untyped apart h in
          (
            allocation,
            record { allocation_idx = idx; untyped = after },
            rw (power, found) refl,
            g,
            refl,
          )),
    )

-- An allocation of a power of two raises exactly where no untyped object has, above what it already
-- gave out, a multiple of the size from which that many objects end at or below its end. Else the
-- range is aligned to the size, lies in one untyped object of normal memory, whose cap is returned,
-- and meets no range that was clear of the free space before. The untyped objects share no memory.
pub alloc_lem :
    (k count : ℕ) (koa : KernelObjectAllocator)
    → AllApart (objects koa.untyped)
    → ((¬ HasRoom (2 ^ k) count koa.untyped) × (alloc (2 ^ k) count koa ≡ err exception))
      ⊎ (HasRoom (2 ^ k) count koa.untyped
          × ((allocation : KernelAllocation) × (koa' : KernelObjectAllocator) × (alloc
                  (2 ^ k)
                  count
                  koa
                ≡ ok (allocation, koa'))
              × Granted (2 ^ k) count koa.untyped allocation koa'.untyped
              × (koa'.allocation_idx ≡ suc koa.allocation_idx)))
alloc_lem k count koa apart =
    let facts = alloc-cases k count koa apart in
    let room = has_any-HasRoom (2 ^ k) count koa.untyped (pow_pos k) in
    elim (Bool-cases (has_any (2 ^ k) count koa.untyped)) [
      | inl any ↦ inr (room.0 any, facts.1 any)
      | inr full ↦ inl (refuted full room.1, facts.0 full)
    ]
  where
    refuted :
        has_any (2 ^ k) count koa.untyped ≡ false
        → (HasRoom (2 ^ k) count koa.untyped → has_any (2 ^ k) count koa.untyped ≡ true)
        → ¬ HasRoom (2 ^ k) count koa.untyped
    refuted full some_room h = let any = some_room h in cc

abbrev Disjoint : ℕ × ℕ → ℕ × ℕ → Type 0
Disjoint (a, b) (c, d) = (b ≤ c) ⊎ (d ≤ a)

abbrev pub AllDisjoint : List (ℕ × ℕ) → Type 0
AllDisjoint [] = Unit
AllDisjoint (x ∷ xs) = All (Disjoint x) xs × AllDisjoint xs

abbrev IsGranted : ℕ → ℕ → KernelObjectAllocator → KernelAllocation × KernelObjectAllocator → Type 0
IsGranted size count koa r = Granted size count koa.untyped r.0 r.1.untyped

alloc_pow-Granted :
    (k count : ℕ) (koa : KernelObjectAllocator)
    → AllApart (objects koa.untyped)
    → Ensures (IsGranted (2 ^ k) count koa) (alloc (2 ^ k) count koa)
alloc_pow-Granted k count koa apart =
    let facts = alloc-cases k count koa apart in
    elim (Bool-cases (has_any (2 ^ k) count koa.untyped)) [
      | inl room ↦ let (allocation, koa', ran, g, _) = facts.1 room in rw ran g
      | inr full ↦ rw (facts.0 full) tt
    ]

alloc-Granted :
    (size count : ℕ) (koa : KernelObjectAllocator)
    → AllApart (objects koa.untyped)
    → Ensures (IsGranted size count koa) (alloc size count koa)
unfolding alloc
alloc-Granted size count koa apart = elim (Result-cases (is_power_of_two size)) [
  | inr (e, h) ↦ rw (h, alloc) tt
  | inl (p, h) ↦ tested p h
]
  where
    tested :
        (p : Bool)
        → is_power_of_two size ≡ ok p
        → Ensures (IsGranted size count koa) (alloc size count koa)
    tested false h = rw (h, alloc) tt
    tested true h =
        let (k, e) = is_power_of_two-cases.1 size h in
        subst (λ t. Ensures (IsGranted t count koa) (alloc t count koa)) (sym e)
          (alloc_pow-Granted k count koa apart)

-- The rest of a sequence avoids what the first call gave out.
alloc_all-Disjoint :
    (requests : List (ℕ × ℕ)) (koa : KernelObjectAllocator)
    → AllApart (objects koa.untyped)
    → Ensures
        (λ r. AllDisjoint r.0 × ((c d : ℕ) → Clear c d koa.untyped → All (Disjoint (c, d)) r.0))
        (alloc_all requests koa)
unfolding alloc_all
alloc_all-Disjoint [] koa apart = (tt, λ c d k. tt)
alloc_all-Disjoint ((size, count) ∷ requests) koa apart =
    elim (Result-cases (alloc size count koa)) [
      | inr (e, h) ↦ rw (h, alloc_all) tt
      | inl ((allocation, koa'), h) ↦
          let g : Granted size count koa.untyped allocation koa'.untyped =
            subst (Ensures (IsGranted size count koa)) h (alloc-Granted size count koa apart) in
          let ih = alloc_all-Disjoint requests koa' (subst AllApart (sym g.same_objects) apart) in
          elim (Result-cases (alloc_all requests koa')) [
            | inr (e, h') ↦ rw (h, h', alloc_all) tt
            | inl ((ranges, koa''), h') ↦
                let rest = subst (Ensures _) h' ih in
                rw (h, h', alloc_all)
                  (
                    (rest.1 allocation.phys_addr _ g.clear, rest.0),
                    (λ c d k. (g.fresh c d k, rest.1 c d (g.keeps c d k))),
                  )
          ]
    ]

-- Whatever sequence of allocations is made, the physical ranges that it returns are pairwise
-- disjoint, where no two untyped objects share memory.
pub alloc_all-AllDisjoint :
    (requests : List (ℕ × ℕ)) (koa : KernelObjectAllocator)
    → AllApart (objects koa.untyped)
    → Ensures (λ r. AllDisjoint r.0) (alloc_all requests koa)
alloc_all-AllDisjoint requests koa apart = elim (Result-cases (alloc_all requests koa)) [
  | inr (e, h) ↦ rw h tt
  | inl (r, h) ↦ rw h (subst (Ensures _) h (alloc_all-Disjoint requests koa apart)).0
]
