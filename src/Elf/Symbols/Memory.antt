-- ===== src/Elf/Symbols/Memory.antt =====
-- Writing to a symbol, and reading it back.
use Prim.Native.String.{String}
use sel4cp.Prelude.{
  ℕ, zero, suc, ◌+◌, ◌-◌, ◌≤◌, ◌≡◌, refl, sym, ap, ◌∙◌, true, ◌&&◌, List, [], ◌∷◌, ◌++◌, arith, ok,
  Bool-cases, inl, inr, leb, length, length-append, take, drop, take-append, drop-append,
}
use sel4cp.Elf.Types.{ElfSegment, ElfFile, virt_addr}
use sel4cp.Elf.Symbols.{
  find_symbol, holds_range, slice, get_data_from, get_data, splice, write_data, write_symbol,
}

pub length-take : (n : ℕ) (bs : List ℕ) → n ≤ length bs → length (take n bs) ≡ n
length-take zero bs h = refl
length-take (suc n) [] h = absurd (omega arith)
length-take (suc n) (b ∷ bs) h = ap suc (length-take n bs (omega arith))

length-drop : (n : ℕ) (bs : List ℕ) → length (drop n bs) ≡ length bs - n
length-drop zero bs = omega arith
length-drop (suc n) [] = omega arith
length-drop (suc n) (b ∷ bs) = omega (arith, length-drop n bs)

pub length-splice :
    (offset : ℕ) (new bs : List ℕ)
    → offset + length new ≤ length bs
    → length (splice offset new bs) ≡ length bs
length-splice offset new bs h =
    let front = take offset bs in
    let back = drop (offset + length new) bs in
    omega (
      arith,
      length-append front (new ++ back),
      length-append new back,
      length-take offset bs (omega arith),
      length-drop (offset + length new) bs,
    )

drop-splice :
    (offset : ℕ) (new bs : List ℕ)
    → offset ≤ length bs
    → drop offset (splice offset new bs) ≡ new ++ drop (offset + length new) bs
drop-splice offset new bs h =
    let front = take offset bs in
    ap (λ t. drop t (splice offset new bs)) (sym (length-take offset bs h)) ∙ drop-append front _

pub slice-splice :
    (offset : ℕ) (new bs : List ℕ)
    → offset + length new ≤ length bs
    → slice offset (length new) (splice offset new bs) ≡ new
slice-splice offset new bs h =
    ap (take (length new)) (drop-splice offset new bs (omega arith)) ∙ take-append new _

-- The segment after a write that it takes.
abbrev spliced : ℕ → List ℕ → ElfSegment → ElfSegment
spliced vaddr new seg = record seg { contents = splice (vaddr - virt_addr seg) new seg.contents }

holds_range-spliced :
    (vaddr : ℕ) (new : List ℕ) (seg : ElfSegment)
    → holds_range vaddr (length new) seg ≡ true
    → (holds_range vaddr (length new) (spliced vaddr new seg) ≡ true)
      × (slice (vaddr - virt_addr seg) (length new) (spliced vaddr new seg).contents ≡ new)
holds_range-spliced vaddr new seg h =
    let inside : vaddr - virt_addr seg + length new ≤ length seg.contents = ground arith in
    let size = length-splice (vaddr - virt_addr seg) new seg.contents inside in
    (
      ap (λ t. leb (virt_addr seg) vaddr && leb (vaddr + length new) (virt_addr seg + t)) size ∙ h,
      slice-splice (vaddr - virt_addr seg) new seg.contents inside,
    )

write_data_returns :
    (vaddr : ℕ) (new : List ℕ) (segs : List ElfSegment)
    → (after : List ElfSegment) × (write_data vaddr (length new) new segs ≡ ok after)
unfolding write_data
write_data_returns vaddr new [] = ([], refl)
write_data_returns vaddr new (seg ∷ segs) =
    let (after, made) = write_data_returns vaddr new segs in
    let small : leb (length new) (length new) ≡ true = ground arith in
    elim (Bool-cases (holds_range vaddr (length new) seg)) [
      | inl here ↦ (spliced vaddr new seg ∷ after, rw (here, small, made) refl)
      | inr other ↦ (seg ∷ after, rw (other, made) refl)
    ]

-- The first segment that holds a range is the same one after a write to the range.
get_data_from-write_data :
    (vaddr : ℕ) (new : List ℕ) (segs : List ElfSegment) {old : List ℕ}
    → get_data_from vaddr (length new) segs ≡ ok old
    → (after : List ElfSegment) × (write_data vaddr (length new) new segs ≡ ok after)
      × (get_data_from vaddr (length new) after ≡ ok new)
unfolding get_data_from write_data
get_data_from-write_data vaddr new [] found = cc
get_data_from-write_data vaddr new (seg ∷ segs) found =
    let small : leb (length new) (length new) ≡ true = ground arith in
    elim (Bool-cases (holds_range vaddr (length new) seg)) [
      | inl here ↦
          let (after, made) = write_data_returns vaddr new segs in
          let (still, read) = holds_range-spliced vaddr new seg here in
          (spliced vaddr new seg ∷ after, rw (here, small, made) refl, rw still (ap ok read))
      | inr later ↦
          let (after, made, read) = get_data_from-write_data vaddr new segs (rw later at found) in
          (seg ∷ after, rw (later, made) refl, rw later read)
    ]

-- Writing to a symbol as many bytes as it has, where some segment holds the symbol, returns, and the
-- file then holds these bytes at the symbol, which keeps its place and size.
pub get_data-write_symbol :
    (nm : String) (vaddr : ℕ) (new : List ℕ) (elf : ElfFile) {old : List ℕ}
    → find_symbol nm elf ≡ ok (vaddr, length new)
    → get_data vaddr (length new) elf ≡ ok old
    → (after : ElfFile) × (write_symbol nm new elf ≡ ok after)
      × (get_data vaddr (length new) after ≡ ok new)
      × (find_symbol nm after ≡ ok (vaddr, length new))
unfolding get_data write_symbol find_symbol
get_data-write_symbol nm vaddr new elf named held =
    let (segs, made, read) = get_data_from-write_data vaddr new elf.segments held in
    (record elf { segments = segs }, rw (named, write_symbol, made) refl, read, named)
