-- ===== src/Memory/Insert.antt =====
-- `insert_region`: what it covers, where it succeeds, and where the check after it fails.
use sel4cp.Prelude.{
  inl, inr, ◌⊎◌, Bool-cases, ℕ, zero, suc, ◌≤◌, ◌<◌, ◌≡◌, ◌∙◌, refl, Bool, true, false, ◌&&◌, ◌||◌,
  none, some, List, [], ◌∷◌, arith, ltb, leb, if◌then◌else◌, ok, err, assertion, get_elem?,
}
use sel4cp.Memory.{MemoryRegion, DisjointMemoryRegion, follows, place, insert_region}
use sel4cp.Memory.Cover.{inside, covers, IsOrdered, follows_of-IsOrdered, IsOrdered-weaken}

place-covers :
    (base end a : ℕ) (rs : List MemoryRegion)
    → covers (place base end rs) a ≡ (inside base end a || covers rs a)
unfolding place
place-covers base end a [] = refl
place-covers base end a (r ∷ rs) = ground (arith, place-covers base end a rs)

-- The check accepts the list only where the new region is in order with its neighbours.
place-IsOrdered :
    (low base end : ℕ) (rs : List MemoryRegion)
    → base ≤ end
    → IsOrdered low rs
    → follows (some low) (place base end rs) ≡ true
    → IsOrdered low (place base end rs)
unfolding place
place-IsOrdered low base end [] h o f = ground arith
place-IsOrdered low base end (r ∷ rs) h o f =
    ground (arith, place-IsOrdered r.end base end rs h o.2, IsOrdered-weaken end r.base rs)

-- Every region ends at or below the base of the new one, or starts strictly above its end.
abbrev pub has_room : ℕ → ℕ → List MemoryRegion → Bool
has_room base end [] = true
has_room base end (r ∷ rs) = (leb r.end base || ltb end r.base) && has_room base end rs

has_room_above :
    (low base end : ℕ) (rs : List MemoryRegion)
    → IsOrdered low rs
    → end < low
    → has_room base end rs ≡ true
has_room_above low base end [] o h = refl
has_room_above low base end (r ∷ rs) o h = ground (arith, has_room_above r.end base end rs o.2)

place-touching :
    (low base end : ℕ) (rs : List MemoryRegion)
    → IsOrdered low rs
    → base < low
    → follows (some low) (place base end rs) ≡ false
unfolding place
place-touching low base end [] o h = ground arith
place-touching low base end (r ∷ rs) o h = ground (arith, place-touching r.end base end rs o.2)

place-follows :
    (low base end : ℕ) (rs : List MemoryRegion)
    → IsOrdered low rs
    → low ≤ base
    → base ≤ end
    → follows (some low) (place base end rs) ≡ has_room base end rs
unfolding place
place-follows low base end [] o l h = ground arith
place-follows low base end (r ∷ rs) o l h = ground (
  arith,
  follows_of-IsOrdered r.end rs o.2,
  has_room_above r.end base end rs o.2,
  place-touching r.end base end rs o.2,
  place-follows r.end base end rs o.2,
)

follows-zero : (rs : List MemoryRegion) → follows none rs ≡ follows (some 0) rs
follows-zero [] = refl
follows-zero (r ∷ rs) = ground arith

insert_region-cases :
    (base end : ℕ) (rs : DisjointMemoryRegion)
    → base ≤ end
    → IsOrdered 0 rs
    → (insert_region base end rs
        ≡ (if has_room base end rs then ok (place base end rs) else err assertion))
      × (has_room base end rs ≡ true → IsOrdered 0 (place base end rs))
      × ((a : ℕ) → covers (place base end rs) a ≡ (inside base end a || covers rs a))
unfolding insert_region
insert_region-cases base end rs h o =
    let same = place-follows 0 base end rs o (omega arith) h in
    (
      ground (arith, same, follows-zero (place base end rs)),
      (λ room. place-IsOrdered 0 base end rs h o (same ∙ room)),
      (λ a. place-covers base end a rs),
    )

-- Inserting into an ordered list succeeds exactly where every region ends at or below the new base
-- or starts strictly above the new end, and else the check raises AssertionError. On success the
-- list is ordered and covers the new range beside what it covered before.
pub insert_region_lem :
    (base end : ℕ) (rs : DisjointMemoryRegion)
    → base ≤ end
    → IsOrdered 0 rs
    → ((has_room base end rs ≡ false) × (insert_region base end rs ≡ err assertion))
      ⊎ ((has_room base end rs ≡ true)
          × ((after : DisjointMemoryRegion) × (insert_region base end rs ≡ ok after)
              × IsOrdered 0 after
              × ((a : ℕ) → covers after a ≡ (inside base end a || covers rs a))))
insert_region_lem base end rs h o =
    let (outcome, ordered, covered) = insert_region-cases base end rs h o in
    elim (Bool-cases (has_room base end rs)) [
      | inl room ↦ inr (room, (place base end rs, rw (outcome, room) refl, ordered room, covered))
      | inr full ↦ inl (full, rw (outcome, full) refl)
    ]

-- Inserting a range that ends exactly where some region of the list starts raises AssertionError,
-- though no address of the range is covered by that region.
pub insert_region-adjacent :
    (base end i : ℕ) (rs : DisjointMemoryRegion) {r : MemoryRegion}
    → base < end
    → IsOrdered 0 rs
    → get_elem? rs i ≡ some r
    → r.base ≡ end
    → insert_region base end rs ≡ err assertion
insert_region-adjacent base end i rs h o e t =
    rw ((insert_region-cases base end rs (omega arith) o).0, full i 0 rs o e t) refl
  where
    full :
        (i low : ℕ) (rs : List MemoryRegion) {r : MemoryRegion}
        → IsOrdered low rs
        → get_elem? rs i ≡ some r
        → r.base ≡ end
        → has_room base end rs ≡ false
    full i low [] o e t = cc
    full zero low (r ∷ rs) o e t = ground arith
    full (suc i) low (r ∷ rs) o e t = ground (arith, full i r.end rs o.2 e t)
