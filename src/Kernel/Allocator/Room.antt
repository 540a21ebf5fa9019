-- ===== src/Kernel/Allocator/Room.antt =====
-- Where an untyped object has room, told from the multiples of the size.
use native.Mathlib.Nat.{div-add-mod}
use sel4cp.Prelude.{
  ℕ, ◌+◌, ◌*◌, ◌/◌, ◌%◌, ◌<◌, ◌≤◌, ◌≡◌, ◌⊎◌, ◌↔◌, inl, inr, Bool, true, false, ◌||◌, List, [], ◌∷◌,
  leb, arith, Bool-cases,
}
use sel4cp.Words.{round_up}
use sel4cp.Words.Align.{round_lem}
use sel4cp.Kernel.Allocator.{UntypedAllocator, base, start_of, has_space}

abbrev pub has_any : ℕ → ℕ → List UntypedAllocator → Bool
has_any size count [] = false
has_any size count (ut ∷ uts) = has_space size count ut || has_any size count uts

-- A multiple that is not below a number is not below the least one.
least_multiple : (x n s up : ℕ) → 0 < x → s % x ≡ 0 → n ≤ s → up % x ≡ 0 → up < n + x → up ≤ s
least_multiple x n s up pos sm le um lt =
    let es = div-add-mod s x in
    let eu = div-add-mod up x in
    elim (Bool-cases (leb (up / x) (s / x))) [
      | inl low ↦
          let h : up / x ≤ s / x = ground (arith, low) in
          let m : x * (up / x) ≤ x * (s / x) = grind arith in omega (arith, es, eu, m, sm, um)
      | inr high ↦
          let h : s / x + 1 ≤ up / x = ground (arith, high) in
          let m : x * (s / x + 1) ≤ x * (up / x) = grind arith in
          let d : x * (s / x + 1) ≡ x * (s / x) + x = grind arith in
          omega (arith, es, eu, m, d, sm, um, le, lt)
    ]

-- Some untyped object has, above what it already gave out, a multiple of the size from which that
-- many objects end at or below its own end.
abbrev pub HasRoom : ℕ → ℕ → List UntypedAllocator → Type 0
HasRoom size count [] = ⊥
HasRoom size count (ut ∷ uts) =
    ((start : ℕ) × (start % size ≡ 0)
      × (ut.untyped_object.region.base + ut.allocation_point ≤ start)
      × (start + count * size ≤ ut.untyped_object.region.end))
    ⊎ HasRoom size count uts

pub has_any-HasRoom :
    (size count : ℕ) (uts : List UntypedAllocator)
    → 0 < size
    → (has_any size count uts ≡ true) ↔ HasRoom size count uts
unfolding start_of
has_any-HasRoom size count [] pos = ((λ h. absurd (false≢true h)), (λ h. absurd h))
  where
    false≢true : ¬ (false ≡ true)
    false≢true h = cc
has_any-HasRoom size count (ut ∷ uts) pos =
    let n = base ut + ut.allocation_point in
    let facts = round_lem n size pos in
    let rest = has_any-HasRoom size count uts pos in
    elim (Bool-cases (has_space size count ut)) [
      | inl here ↦ (
        (λ _. inl (round_up n size, facts.0, facts.1, ground (arith, here))),
        (λ _. ground (arith, here)),
      )
      | inr later ↦ (
        (λ h. inr (rest.0 (ground (arith, h, later)))),
        by_room (facts.0, facts.1, facts.2) later rest.1,
      )
    ]
  where
    by_room :
        ((round_up (base ut + ut.allocation_point) size % size ≡ 0)
          × (base ut + ut.allocation_point ≤ round_up (base ut + ut.allocation_point) size)
          × (round_up (base ut + ut.allocation_point) size < base ut + ut.allocation_point + size))
        → has_space size count ut ≡ false
        → (HasRoom size count uts → has_any size count uts ≡ true)
        → HasRoom size count (ut ∷ uts)
        → has_any size count (ut ∷ uts) ≡ true
    by_room f later r (inl (start, aligned, above, ends)) =
        let low =
          least_multiple size (base ut + ut.allocation_point) start _ pos aligned above f.0 f.2 in
        ground (arith, low, ends, later)
    by_room f later r (inr room) = ground (arith, r room)
