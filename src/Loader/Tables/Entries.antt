-- ===== src/Loader/Tables/Entries.antt =====
-- Reading the entries of a table.
use mathlib.Core.List.{append-nil}
use sel4cp.Prelude.{
  ℕ, zero, suc, ◌+◌, ◌-◌, ◌*◌, ◌^◌, ◌≤◌, ◌<◌, ◌≡◌, ◌≢◌, ◌⊎◌, inl, inr, refl, ltb, ◌&&◌, sym, ap,
  ◌∙◌, true, List, [], ◌∷◌, ◌++◌, arith, ok, ltb, length, take, drop, replicate,
}
use sel4cp.Bytes.{word_bytes, word_of, pack}
use sel4cp.Bytes.Laws.{word_of-word_bytes, length-word_bytes, length-replicate}
use sel4cp.Elf.Symbols.{slice, splice}
use sel4cp.Elf.Symbols.Memory.{length-take, length-splice, slice-splice}
use sel4cp.Loader.Tables.{page_table_size, empty_table, set_entry}

abbrev pub entry_at : ℕ → List ℕ → ℕ
entry_at j table = word_of (slice (8 * j) 8 table)

slice-front : (o n : ℕ) (xs ys : List ℕ) → o + n ≤ length xs → slice o n (xs ++ ys) ≡ slice o n xs
slice-front zero zero xs ys h = refl
slice-front zero (suc n) [] ys h = absurd (omega arith)
slice-front zero (suc n) (x ∷ xs) ys h = ap (λ t. x ∷ t) (slice-front zero n xs ys (omega arith))
slice-front (suc o) n [] ys h = absurd (omega arith)
slice-front (suc o) n (x ∷ xs) ys h = slice-front o n xs ys (omega arith)

drop-past : (o : ℕ) (xs ys : List ℕ) → length xs ≤ o → drop o (xs ++ ys) ≡ drop (o - length xs) ys
drop-past o [] ys h = ap (λ t. drop t ys) (omega arith)
drop-past zero (x ∷ xs) ys h = absurd (omega arith)
drop-past (suc o) (x ∷ xs) ys h =
    drop-past o xs ys (omega arith) ∙ ap (λ t. drop t ys) (omega arith)

take-drop : (o : ℕ) (bs : List ℕ) → take o bs ++ drop o bs ≡ bs
take-drop zero bs = refl
take-drop (suc o) [] = refl
take-drop (suc o) (b ∷ bs) = ap (λ t. b ∷ t) (take-drop o bs)

drop-nil : (n : ℕ) → drop {A = ℕ} n [] ≡ []
drop-nil zero = refl
drop-nil (suc n) = refl

pub drop-drop : (o n : ℕ) (bs : List ℕ) → drop n (drop o bs) ≡ drop (o + n) bs
drop-drop zero n bs = ap (λ t. drop t bs) (omega arith)
drop-drop (suc o) n [] = drop-nil n ∙ sym (drop-nil (suc o + n))
drop-drop (suc o) n (b ∷ bs) =
    let next : suc o + n ≡ suc (o + n) = omega arith in
    drop-drop o n bs ∙ sym (ap (λ t. drop t (b ∷ bs)) next)

slice-splice-before :
    (o n p : ℕ) (new bs : List ℕ)
    → o + n ≤ p
    → p ≤ length bs
    → slice o n (splice p new bs) ≡ slice o n bs
slice-splice-before o n p new bs h inside =
    let fits : o + n ≤ length (take p bs) = omega (arith, length-take p bs inside) in
    slice-front o n (take p bs) _ fits
    ∙ sym (slice-front o n (take p bs) (drop p bs) fits)
    ∙ ap (slice o n) (take-drop p bs)

slice-splice-after :
    (o n p : ℕ) (new bs : List ℕ)
    → p + length new ≤ o
    → p ≤ length bs
    → slice o n (splice p new bs) ≡ slice o n bs
slice-splice-after o n p new bs h inside =
    let front = length-take p bs inside in
    let rest = new ++ drop (p + length new) bs in
    let first : drop o (splice p new bs) ≡ drop (o - length (take p bs)) rest =
      drop-past o (take p bs) rest (omega (arith, front)) in
    let second : drop (o - length (take p bs)) rest
        ≡ drop (o - length (take p bs) - length new) (drop (p + length new) bs) =
      drop-past (o - length (take p bs)) new _ (omega (arith, front)) in
    let third : p + length new + (o - length (take p bs) - length new) ≡ o = omega (arith, front) in
    ap (take n) (first ∙ second ∙ drop-drop (p + length new) _ bs ∙ ap (λ t. drop t bs) third)

-- What writing an entry does to a table.
pub set_entry-effect :
    (i entry : ℕ) (table : List ℕ)
    → entry < 2 ^ 64
    → 8 * i + 8 ≤ length table
    → (table' : List ℕ) × (set_entry i entry table ≡ ok table')
      × (length table' ≡ length table)
      × (entry_at i table' ≡ entry)
      × ((j : ℕ) → j ≢ i → entry_at j table' ≡ entry_at j table)
unfolding set_entry pack
set_entry-effect i entry table small inside =
    let bytes = word_bytes 8 entry in
    let size : length bytes ≡ 8 = length-word_bytes 8 entry in
    let fits : (ltb entry (256 ^ 8) && true) ≡ true = ground arith in
    let at_end = ap length (append-nil bytes) ∙ size in
    let room : 8 * i + length (bytes ++ []) ≤ length table = omega (arith, at_end) in
    (
      splice (8 * i) (bytes ++ []) table,
      rw (fits, set_entry) refl,
      length-splice (8 * i) (bytes ++ []) table room,
      ap (λ n. word_of (slice (8 * i) n (splice (8 * i) (bytes ++ []) table))) (sym at_end)
          ∙ ap word_of (slice-splice (8 * i) (bytes ++ []) table room)
          ∙ ap word_of (append-nil bytes)
          ∙ word_of-word_bytes 8 entry (omega arith),
      λ j other. ap word_of (elim (apart j i other) [
        | inl lower ↦
            slice-splice-before (8 * j) 8 (8 * i) (bytes ++ []) table (omega arith) (omega arith)
        | inr upper ↦
            slice-splice-after (8 * j) 8 (8 * i) (bytes ++ []) table (omega (arith, at_end))
              (omega arith)
      ]),
    )
  where
    apart : (j i : ℕ) → j ≢ i → (j < i) ⊎ (i < j)
    apart j i other = ground arith

-- An empty table has only invalid entries.
zeros_front : (n m : ℕ) → word_of (take n (replicate m 0)) ≡ 0
zeros_front zero m = refl
zeros_front (suc n) zero = refl
zeros_front (suc n) (suc m) = omega (arith, zeros_front n m)

zeros_within : (o n m : ℕ) → word_of (slice o n (replicate m 0)) ≡ 0
zeros_within zero n m = zeros_front n m
zeros_within (suc o) n zero = zeros_front n zero
zeros_within (suc o) n (suc m) = zeros_within o n m

pub entry_at-empty_table : (j : ℕ) → entry_at j empty_table ≡ 0
unfolding empty_table
entry_at-empty_table j = zeros_within (8 * j) 8 page_table_size

pub length-empty_table : length empty_table ≡ 4096
unfolding empty_table
length-empty_table = length-replicate page_table_size 0
