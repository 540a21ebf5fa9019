-- ===== src/Memory/Remove.antt =====
-- `remove_region`: what stays covered, and where it is refused.
use sel4cp.Prelude.{
  ℕ, ◌+◌, ◌-◌, ◌≤◌, ◌≡◌, refl, Bool, true, false, not, ◌&&◌, ◌||◌, none, some, List, [], ◌∷◌, ◌++◌,
  arith, ◌==◌, leb, inl, inr, ◌⊎◌, ok, err, value_error, Bool-cases,
}
use sel4cp.Memory.{MemoryRegion, DisjointMemoryRegion, cut, holds, remove_first, remove_region}
use sel4cp.Memory.Cover.{
  inside, covers, IsOrdered, follows_of-IsOrdered, follows-none, IsOrdered-weaken, covers_below,
}

-- Some region of the list starts at or below the base and ends at or above the end.
abbrev pub is_held : ℕ → ℕ → List MemoryRegion → Bool
is_held base end [] = false
is_held base end (r ∷ rs) = leb r.base base && leb end r.end || is_held base end rs

-- The bytes of a list of regions.
abbrev pub total : List MemoryRegion → ℕ
total [] = 0
total (r ∷ rs) = r.end - r.base + total rs

-- What the removal owes: the order, the addresses that are left, and the bytes that are gone.
pub record Removed (base end low : ℕ) (rs rest : List MemoryRegion) : Type 0 where
  pub ordered : IsOrdered low rest
  pub left : (a : ℕ) → covers rest a ≡ (covers rs a && not (inside base end a))
  pub gone : total rest + (end - base) ≡ total rs

module _ (base end : ℕ) (range : base ≤ end) where
  cut-IsOrdered :
      (low : ℕ) (r : MemoryRegion) (rs : List MemoryRegion)
      → IsOrdered low (r ∷ rs)
      → holds base end r ≡ true
      → IsOrdered low (cut base end r ++ rs)
  unfolding cut
  cut-IsOrdered low r rs o h = elim (Bool-cases (r.base == base)) [
    | inl b ↦ elim (Bool-cases (r.end == end)) [
      | inl e ↦ rw (b, e) (IsOrdered-weaken low r.end rs (omega arith) o.2)
      | inr e ↦ rw (b, e) (ground arith)
    ]
    | inr b ↦ elim (Bool-cases (r.end == end)) [
      | inl e ↦ rw (b, e) (ground (arith, IsOrdered-weaken base r.end rs))
      | inr e ↦ rw (b, e) (ground arith)
    ]
  ]

  cut-covers :
      (low a : ℕ) (r : MemoryRegion) (rs : List MemoryRegion)
      → IsOrdered low (r ∷ rs)
      → holds base end r ≡ true
      → covers (cut base end r ++ rs) a ≡ (covers (r ∷ rs) a && not (inside base end a))
  unfolding cut
  cut-covers low a r rs o h = ground (arith, covers_below r.end a rs o.2)

  cut-total :
      (r : MemoryRegion) (rs : List MemoryRegion)
      → holds base end r ≡ true
      → total (cut base end r ++ rs) + (end - base) ≡ total (r ∷ rs)
  unfolding cut
  cut-total r rs h = ground arith

  held_above :
      (low : ℕ) (rs : List MemoryRegion)
      → IsOrdered low rs
      → is_held base end rs ≡ true
      → low ≤ base
  held_above low [] o h = cc
  held_above low (r ∷ rs) o h = ground (arith, held_above r.end rs o.2)

  remove_first-none :
      (rs : List MemoryRegion) → is_held base end rs ≡ false → remove_first base end rs ≡ none
  unfolding remove_first
  remove_first-none [] h = refl
  remove_first-none (r ∷ rs) h = ground (arith, remove_first-none rs)

  remove_first-Removed :
      (low : ℕ) (rs : List MemoryRegion)
      → IsOrdered low rs
      → is_held base end rs ≡ true
      → (rest : List MemoryRegion) × (remove_first base end rs ≡ some rest)
        × Removed base end low rs rest
  unfolding remove_first
  remove_first-Removed low [] o h = cc
  remove_first-Removed low (r ∷ rs) o h = elim (Bool-cases (holds base end r)) [
    | inl here ↦ (
      cut base end r ++ rs,
      rw (here, remove_first) refl,
      record {
        ordered = cut-IsOrdered low r rs o here;
        left = λ a. cut-covers low a r rs o here;
        gone = cut-total r rs here;
      },
    )
    | inr later ↦
        let (rest, found, past) = remove_first-Removed r.end rs o.2 (ground arith) in
        (
          r ∷ rest,
          rw (later, found, remove_first) refl,
          record {
            ordered = (o.0, o.1, past.ordered);
            left = λ a. ground (arith, past.left a, held_above r.end rs o.2);
            gone = omega (arith, past.gone);
          },
        )
  ]

pub remove_region-cases :
    (base end : ℕ) (rs : DisjointMemoryRegion)
    → base ≤ end
    → IsOrdered 0 rs
    → (is_held base end rs ≡ false → remove_region base end rs ≡ err value_error)
      × (is_held base end rs ≡ true
          → (rest : DisjointMemoryRegion) × (remove_region base end rs ≡ ok rest)
            × Removed base end 0 rs rest)
unfolding remove_region
remove_region-cases base end rs range o = (
  (λ h. rw (remove_first-none base end range rs h, remove_region) refl),
  (λ h.
      let (rest, found, past) = remove_first-Removed base end range 0 rs o h in
      let sound = follows-none rest (follows_of-IsOrdered 0 rest past.ordered) in
      (rest, rw (found, remove_region, sound) refl, past)),
)

-- Where every region of an ordered list starts above the base or ends below the end, removing the
-- range raises ValueError. Where some region starts at or below the base and ends at or above the
-- end, it succeeds: the list stays ordered, it covers exactly the addresses that it
-- covered before and that lie outside the range, and its size falls by the size of the range.
pub remove_region_lem :
    (base end : ℕ) (rs : DisjointMemoryRegion)
    → base ≤ end
    → IsOrdered 0 rs
    → ((is_held base end rs ≡ false) × (remove_region base end rs ≡ err value_error))
      ⊎ ((is_held base end rs ≡ true)
          × ((rest : DisjointMemoryRegion) × (remove_region base end rs ≡ ok rest)
              × Removed base end 0 rs rest))
remove_region_lem base end rs range o =
    let facts = remove_region-cases base end rs range o in
    elim (Bool-cases (is_held base end rs)) [
      | inl held ↦ inr (held, facts.1 held)
      | inr missing ↦ inl (missing, facts.0 missing)
    ]
