-- ===== src/Kernel/Boot/Apart/Groups.antt =====
-- Regions with bytes that are apart from each other, and what they cover together.
use mathlib.Core.Path.{subst}
use mathlib.Core.List.{append-nil}
use sel4cp.Prelude.{
  ℕ, suc, ◌-◌, ◌≤◌, ◌<◌, ◌≡◌, ◌⊎◌, inl, refl, sym, ap, ◌∙◌, Bool, true, false, ◌&&◌, ◌||◌, List, [],
  ◌∷◌, ◌++◌, arith, ok, ok_injective, All, All-append,
}
use sel4cp.Bits.{pow_pos}
use sel4cp.Words.{word_mod}
use sel4cp.Memory.{MemoryRegion, aligned_power_of_two_regions, split_all}
use sel4cp.Memory.Cover.{inside, covers, IsOrdered, IsOrdered-weaken}
use sel4cp.Memory.Split.{IsBlock}
use sel4cp.Memory.SplitAll.{AllWords, region-blocks, Tiles-covers, split_all-covers}

abbrev pub ApartRegions : MemoryRegion → MemoryRegion → Type 0
ApartRegions r s = (r.end ≤ s.base) ⊎ (s.end ≤ r.base)

abbrev pub Separate : List MemoryRegion → Type 0
Separate [] = Unit
Separate (r ∷ rs) = All (ApartRegions r) rs × Separate rs

abbrev pub AllFilled : List MemoryRegion → Type 0
AllFilled = All (λ r. r.base < r.end)

-- Two regions with bytes that have no address in common.
pub regions_apart :
    (r s : MemoryRegion)
    → r.base < r.end
    → s.base < s.end
    → ((a : ℕ) → (inside r.base r.end a && inside s.base s.end a) ≡ false)
    → ApartRegions r s
regions_apart r s h k apart = by_address r.base r.end s.base s.end h k (apart r.base) (apart s.base)
  where
    by_address :
        (a b c d : ℕ)
        → a < b
        → c < d
        → (inside a b a && inside c d a) ≡ false
        → (inside a b c && inside c d c) ≡ false
        → (b ≤ c) ⊎ (d ≤ a)
    by_address a b c d h k p q = ground arith

-- No address is covered by both lists.
abbrev pub NoCommon : List MemoryRegion → List MemoryRegion → Type 0
NoCommon rs ss = (a : ℕ) → (covers rs a && covers ss a) ≡ false

pub one_apart :
    (r : MemoryRegion) (ss : List MemoryRegion)
    → r.base < r.end
    → AllFilled ss
    → ((a : ℕ) → (inside r.base r.end a && covers ss a) ≡ false)
    → All (ApartRegions r) ss
one_apart r [] h k apart = tt
one_apart r (s ∷ ss) h k apart = (
  regions_apart r s h k.0 (λ a. ground (arith, apart a)),
  one_apart r ss h k.1 (λ a. ground (arith, apart a)),
)

pub Separate-append :
    (rs ss : List MemoryRegion)
    → AllFilled rs
    → AllFilled ss
    → Separate rs
    → Separate ss
    → NoCommon rs ss
    → Separate (rs ++ ss)
Separate-append [] ss h k p q apart = q
Separate-append (r ∷ rs) ss h k p q apart = (
  All-append (ApartRegions r) rs ss p.0 (one_apart r ss h.0 k (λ a. ground (arith, apart a))),
  Separate-append rs ss h.1 k p.1 q (λ a. ground (arith, apart a)),
)

pub IsOrdered-Separate : (low : ℕ) (rs : List MemoryRegion) → IsOrdered low rs → Separate rs
IsOrdered-Separate low [] o = tt
IsOrdered-Separate low (r ∷ rs) o = (above r.end rs o.2, IsOrdered-Separate r.end rs o.2)
  where
    above :
        (high : ℕ) (rs : List MemoryRegion)
        → IsOrdered high rs
        → All (λ s. (high ≤ s.base) ⊎ (s.end ≤ r.base)) rs
    above high [] o = tt
    above high (s ∷ rs) o =
        (inl o.0, above high rs (IsOrdered-weaken high s.end rs (omega arith) o.2))

pub covers-append :
    (rs ss : List MemoryRegion) (a : ℕ) → covers (rs ++ ss) a ≡ (covers rs a || covers ss a)
covers-append [] ss a = refl
covers-append (r ∷ rs) ss a = ground (arith, covers-append rs ss a)

-- Regions with bytes, apart from each other, that cover the addresses of a test.
abbrev pub Group : List MemoryRegion → (ℕ → Bool) → Type 0
Group rs covered = AllFilled rs × Separate rs × ((a : ℕ) → covers rs a ≡ covered a)

pub Group-append :
    (rs ss : List MemoryRegion) (p q : ℕ → Bool)
    → Group rs p
    → Group ss q
    → ((a : ℕ) → (p a && q a) ≡ false)
    → Group (rs ++ ss) (λ a. p a || q a)
Group-append rs ss p q (filled, apart, covered) (filled', apart', covered') none_common = (
  All-append (λ r. r.base < r.end) rs ss filled filled',
  Separate-append rs ss filled filled' apart apart'
      (λ a. ground (arith, covered a, covered' a, none_common a)),
  λ a. ground (arith, covers-append rs ss a, covered a, covered' a),
)

pub blocks_filled :
    (base bits : ℕ) (rs : List MemoryRegion) → All (IsBlock base bits) rs → AllFilled rs
blocks_filled base bits [] h = tt
blocks_filled base bits (r ∷ rs) h =
    (omega (arith, h.0.exact, pow_pos h.0.bits), blocks_filled base bits rs h.1)

pub split_all-Group :
    (base bits : ℕ) (rs bs : List MemoryRegion)
    → IsOrdered 0 rs
    → AllWords rs
    → split_all base bits rs ≡ ok bs
    → Group bs (covers rs)
split_all-Group base bits rs bs o w h =
    let (bs', made, blocks, ordered, covered) = split_all-covers base bits rs o w in
    subst (λ t. Group t (covers rs)) (ok_injective (sym made ∙ h))
      (blocks_filled base bits bs' blocks, IsOrdered-Separate 0 bs' ordered, covered)

pub region-Group :
    (base bits : ℕ) (r : MemoryRegion) (bs : List MemoryRegion)
    → r.base ≤ r.end
    → (r.base < r.end → r.end < word_mod)
    → aligned_power_of_two_regions base bits r ≡ ok bs
    → Group bs (inside r.base r.end)
region-Group base bits r bs range small h =
    let (bs', made, (tiles, blocks)) = region-blocks base bits r range small in
    let (_, ordered, covered) = Tiles-covers base bits r.base r.end bs' [] tiles blocks tt in
    subst (λ t. Group t (inside r.base r.end)) (ok_injective (sym made ∙ h))
      (
        blocks_filled base bits bs' blocks,
        IsOrdered-Separate r.base bs' (subst (IsOrdered r.base) (append-nil bs') ordered),
        λ a.
            ap (λ t. covers t a) (sym (append-nil bs')) ∙ covered a ∙ plain (inside r.base r.end a),
      )
  where
    plain : (b : Bool) → (b || false) ≡ b
    plain b = ground arith

-- Covered addresses below the end of the address space bound the regions that have bytes.
pub AllWords-covers :
    (rs : List MemoryRegion) → ((a : ℕ) → covers rs a ≡ true → suc a < word_mod) → AllWords rs
AllWords-covers [] h = tt
AllWords-covers (r ∷ rs) h = (
  (λ more.
      let last : inside r.base r.end (r.end - 1) ≡ true = ground arith in
      omega (arith, h (r.end - 1) (ground arith))),
  AllWords-covers rs (λ a covered. h a (ground arith)),
)
