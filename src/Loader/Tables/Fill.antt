-- ===== src/Loader/Tables/Fill.antt =====
-- What the loops that fill the tables write.
use sel4cp.Prelude.{
  ℕ, zero, suc, ◌+◌, ◌-◌, ◌*◌, ◌^◌, ◌≤◌, ◌<◌, ◌≡◌, ◌≢◌, ◌⊎◌, inl, inr, refl, sym, ap, ◌∙◌, List,
  arith, ok, length, bit_or,
}
use sel4cp.Bits.{bit_or-disjoint}
use sel4cp.Loader.Tables.{lower_entry, fill_lower, upper_entry, fill_upper}
use sel4cp.Loader.Tables.Entries.{entry_at, set_entry-effect}

pub lower_entry_lem : (i : ℕ) → lower_entry i ≡ i * 2 ^ 30 + 1025
lower_entry_lem i =
    let one : bit_or (i * 2 ^ 30) (1 * 2 ^ 10) ≡ (i * 2 ^ 20 + 1) * 2 ^ 10 =
      bit_or-disjoint 30 i 1024 (omega arith) ∙ omega arith in
    let two : bit_or ((i * 2 ^ 20 + 1) * 2 ^ 10) 0 ≡ (i * 2 ^ 20 + 1) * 2 ^ 10 =
      bit_or-disjoint 10 (i * 2 ^ 20 + 1) 0 (omega arith) ∙ omega arith in
    ap (λ t. bit_or (bit_or t (0 * 2 ^ 2)) 1) one
    ∙ ap (λ t. bit_or t 1) two
    ∙ bit_or-disjoint 10 (i * 2 ^ 20 + 1) 1 (omega arith)
    ∙ omega arith

pub upper_entry_lem : (q : ℕ) → upper_entry (q * 2 ^ 21) ≡ q * 2 ^ 21 + 1809
upper_entry_lem q =
    let one : bit_or (q * 2 ^ 21) (1 * 2 ^ 10) ≡ (q * 2 ^ 11 + 1) * 2 ^ 10 =
      bit_or-disjoint 21 q 1024 (omega arith) ∙ omega arith in
    let two : bit_or ((q * 2 ^ 11 + 1) * 2 ^ 10) (3 * 2 ^ 8) ≡ (q * 2 ^ 13 + 7) * 2 ^ 8 =
      bit_or-disjoint 10 (q * 2 ^ 11 + 1) 768 (omega arith) ∙ omega arith in
    let three : bit_or ((q * 2 ^ 13 + 7) * 2 ^ 8) (4 * 2 ^ 2) ≡ (q * 2 ^ 17 + 113) * 2 ^ 4 =
      bit_or-disjoint 8 (q * 2 ^ 13 + 7) 16 (omega arith) ∙ omega arith in
    ap (λ t. bit_or (bit_or (bit_or t (3 * 2 ^ 8)) (4 * 2 ^ 2)) (1 * 2 ^ 0)) one
    ∙ ap (λ t. bit_or (bit_or t (4 * 2 ^ 2)) (1 * 2 ^ 0)) two
    ∙ ap (λ t. bit_or t (1 * 2 ^ 0)) three
    ∙ bit_or-disjoint 4 (q * 2 ^ 17 + 113) 1 (omega arith)
    ∙ omega arith

-- The entries from `i` up to `i + n` are given by a function of their place, and those below are
-- as they were.
abbrev pub Filled : ℕ → ℕ → (ℕ → ℕ) → List ℕ → List ℕ → Type 0
Filled i n entry before after =
    (length after ≡ length before)
    × ((j : ℕ) → i ≤ j → j < i + n → entry_at j after ≡ entry j)
    × ((j : ℕ) → j < i → entry_at j after ≡ entry_at j before)

-- One more entry in front of those that are filled.
Filled-step :
    (i n : ℕ) (entry : ℕ → ℕ) (before middle after : List ℕ)
    → length middle ≡ length before
    → entry_at i middle ≡ entry i
    → ((j : ℕ) → j ≢ i → entry_at j middle ≡ entry_at j before)
    → Filled (i + 1) n entry middle after
    → Filled i (suc n) entry before after
Filled-step i n entry before middle after size here others (size', later, earlier) = (
  size' ∙ size,
  λ j low high. elim (first j low) [
    | inl e ↦ ap (λ t. entry_at t after) e ∙ earlier i (omega arith) ∙ here ∙ ap entry (sym e)
    | inr e ↦ later j (omega arith) (omega arith)
  ],
  λ j low. earlier j (omega arith) ∙ others j (ground arith),
)
  where
    first : (j : ℕ) → i ≤ j → (j ≡ i) ⊎ (i < j)
    first j low = ground arith

pub fill_lower-Filled :
    (n i : ℕ) (table : List ℕ)
    → i + n ≤ 512
    → length table ≡ 4096
    → (after : List ℕ) × (fill_lower n i table ≡ ok after)
      × Filled i n (λ j. j * 2 ^ 30 + 1025) table after
unfolding fill_lower
fill_lower-Filled zero i table h size =
    (table, refl, (refl, λ j low high. absurd (omega arith), λ j low. refl))
fill_lower-Filled (suc n) i table h size =
    let (middle, made, same, here, others) =
      set_entry-effect i (lower_entry i) table (omega (arith, lower_entry_lem i)) (omega arith) in
    let (after, made', filled) = fill_lower-Filled n (i + 1) middle (omega arith) (same ∙ size) in
    (
      after,
      rw (made, fill_lower) made',
      Filled-step i n _ table middle after same (here ∙ lower_entry_lem i) others filled,
    )

-- The loop over the upper table, which started at entry `b` with the block `q`.
pub fill_upper-Filled :
    (b q n i first_paddr : ℕ) (table : List ℕ)
    → b ≤ i
    → i + n ≤ 512
    → q + 512 < 2 ^ 43
    → first_paddr ≡ (q + (i - b)) * 2 ^ 21
    → length table ≡ 4096
    → (after : List ℕ) × (fill_upper n i first_paddr table ≡ ok after)
      × Filled i n (λ j. (q + (j - b)) * 2 ^ 21 + 1809) table after
unfolding fill_upper
fill_upper-Filled b q zero i first_paddr table start h small e size =
    (table, refl, (refl, λ j low high. absurd (omega arith), λ j low. refl))
fill_upper-Filled b q (suc n) i first_paddr table start h small e size =
    let value : upper_entry first_paddr ≡ (q + (i - b)) * 2 ^ 21 + 1809 =
      ap upper_entry e ∙ upper_entry_lem (q + (i - b)) in
    let (middle, made, same, here, others) =
      set_entry-effect i (upper_entry first_paddr) table (omega (arith, value)) (omega arith) in
    let (after, made', filled) =
      fill_upper-Filled b q n (i + 1) (first_paddr + 2 ^ 21) middle (omega arith) (omega arith)
        small (omega arith) (same ∙ size) in
    (
      after,
      rw (made, fill_upper) made',
      Filled-step i n _ table middle after same (here ∙ value) others filled,
    )
