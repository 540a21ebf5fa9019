-- ===== src/Memory/Cover.antt =====
-- Which addresses a list of regions covers, and when the list is in order.
use sel4cp.Prelude.{
  ℕ, ◌≤◌, ◌<◌, ◌≡◌, refl, Bool, true, false, ◌&&◌, ◌||◌, none, some, List, [], ◌∷◌, arith, ltb, leb,
}
use sel4cp.Memory.{MemoryRegion, follows}

abbrev pub inside : ℕ → ℕ → ℕ → Bool
inside base end a = leb base a && ltb a end

abbrev pub covers : List MemoryRegion → ℕ → Bool
covers [] a = false
covers (r ∷ rs) a = inside r.base r.end a || covers rs a

-- No region starts below the end of the one before it, or below `low`, or above its own end.
abbrev pub IsOrdered : ℕ → List MemoryRegion → Type 0
IsOrdered low [] = Unit
IsOrdered low (r ∷ rs) = (low ≤ r.base) × (r.base ≤ r.end) × IsOrdered r.end rs

pub follows_of-IsOrdered :
    (low : ℕ) (rs : List MemoryRegion) → IsOrdered low rs → follows (some low) rs ≡ true
follows_of-IsOrdered low [] h = refl
follows_of-IsOrdered low (r ∷ rs) h = ground (arith, follows_of-IsOrdered r.end rs h.2)

pub follows-none : (rs : List MemoryRegion) → follows (some 0) rs ≡ true → follows none rs ≡ true
follows-none [] h = refl
follows-none (r ∷ rs) h = ground arith

pub IsOrdered-weaken :
    (low high : ℕ) (rs : List MemoryRegion) → low ≤ high → IsOrdered high rs → IsOrdered low rs
IsOrdered-weaken low high [] h o = tt
IsOrdered-weaken low high (r ∷ rs) h o = (omega arith, o.1, o.2)

-- Nothing below the bound is covered.
pub covers_below :
    (low a : ℕ) (rs : List MemoryRegion) → IsOrdered low rs → a < low → covers rs a ≡ false
covers_below low a [] h l = refl
covers_below low a (r ∷ rs) h l = ground (arith, covers_below r.end a rs h.2)
