-- ===== src/Memory/Allocate.antt =====
-- First-fit allocation out of an ordered list of regions.
use sel4cp.Prelude.{
  ℕ, ◌+◌, ◌≤◌, ◌≡◌, refl, Bool, true, false, ◌||◌, some, none, List, [], ◌∷◌, arith, ok, err, leb,
  ◌&&◌, value_error, Bool-cases, inl, inr, ◌⊎◌, sym, ap, ◌∙◌, ◌>>=◌, >>=-eq-ok, ok_injective,
}
use sel4cp.Memory.{
  MemoryRegion, DisjointMemoryRegion, fits, first_fit, remove_region, allocate_from,
}
use sel4cp.Memory.Cover.{inside, covers, IsOrdered}
use sel4cp.Memory.Remove.{is_held, Removed, remove_region-cases}

-- Some region starts at or above the bound and ends at least the size behind its start.
abbrev pub has_fit : ℕ → ℕ → List MemoryRegion → Bool
has_fit size lower [] = false
has_fit size lower (r ∷ rs) = leb (r.base + size) r.end && leb lower r.base || has_fit size lower rs

-- What an allocation owes: the range lies above the bound, all of it was free before, and it is
-- taken out of the list.
pub record Allocated (size lower : ℕ) (rs : DisjointMemoryRegion) (r : ℕ × DisjointMemoryRegion)
    : Type 0 where
  pub above : lower ≤ r.0
  pub free : (a : ℕ) → inside r.0 (r.0 + size) a ≡ true → covers rs a ≡ true
  pub taken : Removed r.0 (r.0 + size) 0 rs r.1

first_fit-none :
    (size lower : ℕ) (rs : List MemoryRegion)
    → has_fit size lower rs ≡ false
    → first_fit size lower rs ≡ none
unfolding first_fit
first_fit-none size lower [] h = refl
first_fit-none size lower (r ∷ rs) h = ground (arith, first_fit-none size lower rs)

first_fit-some :
    (size lower : ℕ) (rs : List MemoryRegion)
    → has_fit size lower rs ≡ true
    → (base : ℕ) × (first_fit size lower rs ≡ some base)
      × (lower ≤ base)
      × (is_held base (base + size) rs ≡ true)
unfolding first_fit
first_fit-some size lower [] h = cc
first_fit-some size lower (r ∷ rs) h = elim (Bool-cases (fits size lower r)) [
  | inl here ↦ (r.base, ground arith, ground arith, ground arith)
  | inr later ↦
      let (base, found, above, held) = first_fit-some size lower rs (ground arith) in
      (base, rw (later, found, first_fit) refl, above, ground arith)
]

held-covers :
    (base end a : ℕ) (rs : List MemoryRegion)
    → is_held base end rs ≡ true
    → inside base end a ≡ true
    → covers rs a ≡ true
held-covers base end a [] h i = cc
held-covers base end a (r ∷ rs) h i = ground (arith, held-covers base end a rs)

allocate_from-cases :
    (size lower : ℕ) (rs : DisjointMemoryRegion)
    → IsOrdered 0 rs
    → (has_fit size lower rs ≡ false → allocate_from size lower rs ≡ err value_error)
      × (has_fit size lower rs ≡ true
          → (r : ℕ × DisjointMemoryRegion) × (allocate_from size lower rs ≡ ok r)
            × Allocated size lower rs r)
unfolding allocate_from
allocate_from-cases size lower rs o = (
  (λ h. rw (first_fit-none size lower rs h, allocate_from) refl),
  (λ h.
      let (base, found, above, held) = first_fit-some size lower rs h in
      let (rest, removed, past) =
        (remove_region-cases base (base + size) rs (omega arith) o).1 held in
      (
        (base, rest),
        rw (found, allocate_from, removed) refl,
        record {
          above = above;
          free = λ a. held-covers base (base + size) a rs held;
          taken = past;
        },
      )),
)

-- An allocation raises ValueError exactly where no region that starts at or above the bound ends at
-- least the size behind its start. Else, on an ordered list, it returns a base at or above the bound, all of its range was covered before,
-- and the list that is left is ordered and covers exactly what it did outside the range.
pub allocate_from_lem :
    (size lower : ℕ) (rs : DisjointMemoryRegion)
    → IsOrdered 0 rs
    → ((has_fit size lower rs ≡ false) × (allocate_from size lower rs ≡ err value_error))
      ⊎ ((has_fit size lower rs ≡ true)
          × ((r : ℕ × DisjointMemoryRegion) × (allocate_from size lower rs ≡ ok r)
              × Allocated size lower rs r))
allocate_from_lem size lower rs o =
    let facts = allocate_from-cases size lower rs o in
    elim (Bool-cases (has_fit size lower rs)) [
      | inl fit ↦ inr (fit, facts.1 fit)
      | inr full ↦ inl (full, facts.0 full)
    ]

-- An allocation that returns lies above the bound.
pub allocate_from-above :
    (size lower base : ℕ) (rs rest : DisjointMemoryRegion)
    → allocate_from size lower rs ≡ ok (base, rest)
    → lower ≤ base
unfolding allocate_from
allocate_from-above size lower base rs rest h = elim (Bool-cases (has_fit size lower rs)) [
  | inr full ↦
      let e : allocate_from size lower rs ≡ err value_error =
        rw (first_fit-none size lower rs full, allocate_from) refl in
      absurd (err≢ok (base, rest) (sym e ∙ h))
  | inl fit ↦
      let (found, at, above, _) = first_fit-some size lower rs fit in
      let e : allocate_from size lower rs
          ≡ (remove_region found (found + size) rs >>= λ left. ok (found, left)) =
        rw (at, allocate_from) refl in
      let (left, _, same) = >>=-eq-ok (remove_region found (found + size) rs) _ (sym e ∙ h) in
      let b : found ≡ base = ap (λ r. r.0) (ok_injective same) in omega (arith, above, b)
]
  where
    err≢ok : (r : ℕ × DisjointMemoryRegion) → ¬ (err value_error ≡ ok r)
    err≢ok r e = cc
