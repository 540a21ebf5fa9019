-- ===== src/Loader/Tables/Walk.antt =====
-- The processor's walks through the loader's tables, and the windows that they show.
use sel4cp.Prelude.{
  ℕ, ◌+◌, ◌-◌, ◌*◌, ◌/◌, ◌%◌, ◌^◌, ◌≤◌, ◌<◌, ◌≡◌, ◌≢◌, ◌⊎◌, inl, inr, refl, ap, ◌∙◌, Bool, true,
  false, ◌&&◌, Option, none, some, List, arith, ok, bit_or, ◌==◌, leb, if◌then◌else◌,
}
use sel4cp.Bits.{bit_or-disjoint, bit_and-mask}
use sel4cp.Loader.Tables.{lvl0_index, lvl1_index, lvl2_index, empty_table, set_entry, PageTables}
use sel4cp.Loader.Tables.Entries.{
  entry_at, set_entry-effect, entry_at-empty_table, length-empty_table,
}
use sel4cp.Loader.Tables.Fill.{Filled}

-- A descriptor of the table at an address, and one of a block.
abbrev pub is_table : ℕ → ℕ → Bool
is_table address entry = (entry % 4 == 3) && (entry / 2 ^ 12 == address / 2 ^ 12)

abbrev pub is_block : ℕ → Bool
is_block entry = entry % 4 == 1

-- The processor's walk through the upper tables, of which the second and third lie at the
-- addresses given, down to a block of 2 MiB.
abbrev pub walk_upper : ℕ → ℕ → PageTables → ℕ → Option ℕ
walk_upper lvl1_addr lvl2_addr tables va =
    let block = entry_at (va / 2 ^ 21 % 512) tables.boot_lvl2_upper in
    if is_table lvl1_addr (entry_at (va / 2 ^ 39 % 512) tables.boot_lvl0_upper)
      && is_table lvl2_addr (entry_at (va / 2 ^ 30 % 512) tables.boot_lvl1_upper)
      && is_block block
    then some (block % 2 ^ 48 / 2 ^ 21 * 2 ^ 21 + va % 2 ^ 21)
    else none

-- The same through the lower tables, down to a block of 1 GiB.
abbrev pub walk_lower : ℕ → PageTables → ℕ → Option ℕ
walk_lower lvl1_addr tables va =
    let block = entry_at (va / 2 ^ 30 % 512) tables.boot_lvl1_lower in
    if is_table lvl1_addr (entry_at (va / 2 ^ 39 % 512) tables.boot_lvl0_lower) && is_block block
    then some (block % 2 ^ 48 / 2 ^ 30 * 2 ^ 30 + va % 2 ^ 30)
    else none

-- What the tables are for: the rest of the kernel's 1 GiB, from its first address on, moved to
-- where the kernel lies.
abbrev pub kernel_window : ℕ → ℕ → ℕ → Option ℕ
kernel_window first_vaddr first_paddr va =
    if (va / 2 ^ 30 == first_vaddr / 2 ^ 30) && leb first_vaddr va
    then some (first_paddr + (va - first_vaddr))
    else none

-- The first 512 GiB, each address at itself.
abbrev pub identity_window : ℕ → Option ℕ
identity_window va = if va / 2 ^ 39 == 0 then some va else none

pub lvl0_index_lem : (a : ℕ) → lvl0_index a ≡ a / 2 ^ 39 % 512
unfolding lvl0_index
lvl0_index_lem a = bit_and-mask 9 (a / 2 ^ 39)

pub lvl1_index_lem : (a : ℕ) → lvl1_index a ≡ a / 2 ^ 30 % 512
unfolding lvl1_index
lvl1_index_lem a = bit_and-mask 9 (a / 2 ^ 30)

pub lvl2_index_lem : (a : ℕ) → lvl2_index a ≡ a / 2 ^ 21 % 512
unfolding lvl2_index
lvl2_index_lem a = bit_and-mask 9 (a / 2 ^ 21)

pub table_entry : (a : ℕ) → a % 2 ^ 12 ≡ 0 → bit_or a 3 ≡ a + 3
table_entry a aligned =
    let whole : a ≡ a / 2 ^ 12 * 2 ^ 12 = omega arith in
    ap (λ t. bit_or t 3) whole ∙ bit_or-disjoint 12 (a / 2 ^ 12) 3 (omega arith) ∙ omega arith

-- A table with the one entry that points to the next table.
abbrev pub Points : ℕ → ℕ → List ℕ → Type 0
Points i address table = (entry_at i table ≡ address + 3) × ((j : ℕ) → j ≢ i → entry_at j table ≡ 0)

pub set_entry-Points :
    (i a : ℕ)
    → i < 512
    → a % 2 ^ 12 ≡ 0
    → a < 2 ^ 48
    → (table : List ℕ) × (set_entry i (bit_or a 3) empty_table ≡ ok table) × Points i a table
set_entry-Points i a inside aligned small =
    let (table, made, size, here, others) =
      set_entry-effect i (bit_or a 3) empty_table (omega (arith, table_entry a aligned))
        (omega (arith, length-empty_table)) in
    (
      table,
      made,
      (here ∙ table_entry a aligned, λ j other. others j other ∙ entry_at-empty_table j),
    )

pub same_option :
    (b c : Bool) (x y : ℕ)
    → b ≡ c
    → (c ≡ true → x ≡ y)
    → (if b then some x else none) ≡ (if c then some y else none)
same_option true true x y e h = ap some (h refl)
same_option true false x y e h = cc
same_option false true x y e h = cc
same_option false false x y e h = refl

pub is_table-Points :
    (i j a : ℕ) (table : List ℕ)
    → a % 2 ^ 12 ≡ 0
    → Points i a table
    → is_table a (entry_at j table) ≡ (j == i)
is_table-Points i j a table aligned (here, others) = elim (same_place j i) [
  | inl e ↦
      let value : entry_at j table ≡ a + 3 = ap (λ t. entry_at t table) e ∙ here in
      rw value (ground arith)
  | inr e ↦ let value : entry_at j table ≡ 0 = others j e in rw value (ground arith)
]
  where
    same_place : (j i : ℕ) → (j ≡ i) ⊎ (j ≢ i)
    same_place j i = ground arith

pub walk_lower-identity :
    (l1 : ℕ) (tables : PageTables) (va : ℕ)
    → l1 % 2 ^ 12 ≡ 0
    → Points 0 l1 tables.boot_lvl0_lower
    → Filled 0 512 (λ j. j * 2 ^ 30 + 1025) empty_table tables.boot_lvl1_lower
    → va < 2 ^ 48
    → walk_lower l1 tables va ≡ identity_window va
walk_lower-identity l1 tables va aligned first (size, filled, below) small =
    let k = va / 2 ^ 30 % 512 in
    let block : entry_at k tables.boot_lvl1_lower ≡ k * 2 ^ 30 + 1025 =
      filled k (omega arith) (omega arith) in
    rw (is_table-Points 0 (va / 2 ^ 39 % 512) l1 tables.boot_lvl0_lower aligned first, block)
      (same_option _ _ _ _ (lower_test va small) (λ c. lower_value va (ground arith)))
  where
    lower_test :
        (va : ℕ)
        → va < 2 ^ 48
        → ((va / 2 ^ 39 % 512 == 0) && is_block (va / 2 ^ 30 % 512 * 2 ^ 30 + 1025))
          ≡ (va / 2 ^ 39 == 0)
    lower_test va small = ground arith

    lower_value :
        (va : ℕ)
        → va / 2 ^ 39 ≡ 0
        → (va / 2 ^ 30 % 512 * 2 ^ 30 + 1025) % 2 ^ 48 / 2 ^ 30 * 2 ^ 30 + va % 2 ^ 30 ≡ va
    lower_value va high = omega arith

pub walk_upper-window :
    (l1 l2 q fv fp : ℕ) (tables : PageTables) (va : ℕ)
    → l1 % 2 ^ 12 ≡ 0
    → l2 % 2 ^ 12 ≡ 0
    → fv % 2 ^ 21 ≡ 0
    → fp ≡ q * 2 ^ 21
    → q + 512 ≤ 2 ^ 27
    → Points (fv / 2 ^ 39 % 512) l1 tables.boot_lvl0_upper
    → Points (fv / 2 ^ 30 % 512) l2 tables.boot_lvl1_upper
    → Filled
        (fv / 2 ^ 21 % 512)
        (512 - fv / 2 ^ 21 % 512)
        (λ j. (q + (j - fv / 2 ^ 21 % 512)) * 2 ^ 21 + 1809)
        empty_table
        tables.boot_lvl2_upper
    → va / 2 ^ 48 ≡ fv / 2 ^ 48
    → walk_upper l1 l2 tables va ≡ kernel_window fv fp va
walk_upper-window l1 l2 q fv fp tables va al1 al2 av at_q small first second (size, filled, below)
      half =
    let b = fv / 2 ^ 21 % 512 in
    let j = va / 2 ^ 21 % 512 in
    rw
      (
        is_table-Points (fv / 2 ^ 39 % 512) (va / 2 ^ 39 % 512) l1 tables.boot_lvl0_upper al1 first,
        is_table-Points (fv / 2 ^ 30 % 512) (va / 2 ^ 30 % 512) l2 tables.boot_lvl1_upper al2
            second,
      )
      (elim (in_order b j) [
        | inl later ↦ rw (filled j later (omega arith)) (
            same_option _ _ _ _ (inside_test q fv va av half later)
              (λ c. inside_value q fv fp va at_q small av (inside_test-same fv va c) later))
        | inr earlier ↦ rw (below j earlier ∙ entry_at-empty_table j) (
            same_option _ _ _ _ (outside_test fv va half earlier) (λ c. before_all fv va earlier c))
      ])
  where
    in_order : (b j : ℕ) → (b ≤ j) ⊎ (j < b)
    in_order b j = ground arith

    inside_test :
        (q fv va : ℕ)
        → fv % 2 ^ 21 ≡ 0
        → va / 2 ^ 48 ≡ fv / 2 ^ 48
        → fv / 2 ^ 21 % 512 ≤ va / 2 ^ 21 % 512
        → ((va / 2 ^ 39 % 512 == fv / 2 ^ 39 % 512)
            && (va / 2 ^ 30 % 512 == fv / 2 ^ 30 % 512)
            && is_block ((q + (va / 2 ^ 21 % 512 - fv / 2 ^ 21 % 512)) * 2 ^ 21 + 1809))
          ≡ ((va / 2 ^ 30 == fv / 2 ^ 30) && leb fv va)
    inside_test q fv va av half later = ground arith

    inside_test-same :
        (fv va : ℕ) → ((va / 2 ^ 30 == fv / 2 ^ 30) && leb fv va) ≡ true → va / 2 ^ 30 ≡ fv / 2 ^ 30
    inside_test-same fv va h = ground arith

    inside_value :
        (q fv fp va : ℕ)
        → fp ≡ q * 2 ^ 21
        → q + 512 ≤ 2 ^ 27
        → fv % 2 ^ 21 ≡ 0
        → va / 2 ^ 30 ≡ fv / 2 ^ 30
        → fv / 2 ^ 21 % 512 ≤ va / 2 ^ 21 % 512
        → ((q + (va / 2 ^ 21 % 512 - fv / 2 ^ 21 % 512)) * 2 ^ 21 + 1809) % 2 ^ 48 / 2 ^ 21 * 2 ^ 21
            + va % 2 ^ 21
          ≡ fp + (va - fv)
    inside_value q fv fp va at_q small av same later = omega arith

    outside_test :
        (fv va : ℕ)
        → va / 2 ^ 48 ≡ fv / 2 ^ 48
        → va / 2 ^ 21 % 512 < fv / 2 ^ 21 % 512
        → ((va / 2 ^ 39 % 512 == fv / 2 ^ 39 % 512)
            && (va / 2 ^ 30 % 512 == fv / 2 ^ 30 % 512)
            && is_block 0)
          ≡ ((va / 2 ^ 30 == fv / 2 ^ 30) && leb fv va)
    outside_test fv va half earlier = ground arith

    before_all :
        (fv va : ℕ)
        → va / 2 ^ 21 % 512 < fv / 2 ^ 21 % 512
        → ((va / 2 ^ 30 == fv / 2 ^ 30) && leb fv va) ≡ true
        → 0 % 2 ^ 48 / 2 ^ 21 * 2 ^ 21 + va % 2 ^ 21 ≡ fp + (va - fv)
    before_all fv va earlier h = ground arith
