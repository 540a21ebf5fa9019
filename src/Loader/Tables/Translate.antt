-- ===== src/Loader/Tables/Translate.antt =====
-- The addresses that the processor reaches through the loader's tables.
use sel4cp.Prelude.{ℕ, ◌+◌, ◌-◌, ◌/◌, ◌%◌, ◌^◌, ◌≤◌, ◌<◌, ◌≡◌, refl, arith, ok}
use sel4cp.Loader.Tables.{empty_table, PageTables, page_tables}
use sel4cp.Loader.Tables.Entries.{length-empty_table}
use sel4cp.Loader.Tables.Fill.{fill_lower-Filled, fill_upper-Filled}
use sel4cp.Loader.Tables.Walk.{
  walk_upper, walk_lower, kernel_window, identity_window, lvl0_index_lem, lvl1_index_lem,
  lvl2_index_lem, set_entry-Points, walk_lower-identity, walk_upper-window,
}

-- A physical address at which a table can lie.
abbrev pub IsTableAddress : ℕ → Type 0
IsTableAddress a = (a % 2 ^ 12 ≡ 0) × (a < 2 ^ 48)

-- The tables that are made, and all walks through them.
pub page_tables-walks :
    (lvl1_lower lvl1_upper lvl2_upper first_vaddr first_paddr : ℕ)
    → IsTableAddress lvl1_lower
    → IsTableAddress lvl1_upper
    → IsTableAddress lvl2_upper
    → first_vaddr % 2 ^ 21 ≡ 0
    → first_paddr % 2 ^ 21 ≡ 0
    → first_paddr + 2 ^ 30 ≤ 2 ^ 48
    → (tables : PageTables) × (page_tables lvl1_lower lvl1_upper lvl2_upper first_vaddr first_paddr
        ≡ ok tables)
      × ((va : ℕ) → va < 2 ^ 48 → walk_lower lvl1_lower tables va ≡ identity_window va)
      × ((va : ℕ)
          → va / 2 ^ 48 ≡ first_vaddr / 2 ^ 48
          → walk_upper lvl1_upper lvl2_upper tables va ≡ kernel_window first_vaddr first_paddr va)
unfolding page_tables
page_tables-walks l1l l1u l2u fv fp (al, sl) (au, su) (a2, s2) av aligned small =
    let b = fv / 2 ^ 21 % 512 in
    let q = fp / 2 ^ 21 in
    let (t0l, m0l, p0l) = set_entry-Points 0 l1l (omega arith) al sl in
    let (t1l, m1l, f1l) = fill_lower-Filled 512 0 empty_table (omega arith) length-empty_table in
    let (t0u, m0u, p0u) = set_entry-Points (fv / 2 ^ 39 % 512) l1u (omega arith) au su in
    let (t1u, m1u, p1u) = set_entry-Points (fv / 2 ^ 30 % 512) l2u (omega arith) a2 s2 in
    let (t2u, m2u, f2u) =
      fill_upper-Filled b q (512 - b) b fp empty_table (omega arith) (omega arith) (omega arith)
        (omega arith) length-empty_table in
    let tables : PageTables = record {
      boot_lvl0_lower = t0l;
      boot_lvl1_lower = t1l;
      boot_lvl0_upper = t0u;
      boot_lvl1_upper = t1u;
      boot_lvl2_upper = t2u;
    } in
    (
      tables,
      rw (m0l, m1l, lvl0_index_lem fv, m0u, lvl1_index_lem fv, m1u, lvl2_index_lem fv, m2u) refl,
      λ va va_small. walk_lower-identity l1l tables va al p0l f1l va_small,
      λ va half.
          walk_upper-window l1u l2u q fv fp tables va au a2 av (omega arith) (omega arith) p0u p1u
            f2u half,
    )

-- With the tables at addresses of whole 4 KiB pages, and the kernel's first addresses at whole
-- 2 MiB, `page_tables` returns, and the processor's walks through what it returns are these. An
-- address `va` below 2^48 is translated to itself through the lower tables where it is below
-- 512 GiB, and not translated otherwise. Through the upper tables, an address `vb` with the same bits
-- from 48 on as the kernel's first address `v` is translated to `p + (vb - v)`, `p` the kernel's
-- first physical address, where it is in the same 1 GiB as `v` and not below `v`, and not
-- translated otherwise.
pub page_tables-translate :
    (lvl1_lower lvl1_upper lvl2_upper first_vaddr first_paddr va vb : ℕ)
    → IsTableAddress lvl1_lower
    → IsTableAddress lvl1_upper
    → IsTableAddress lvl2_upper
    → first_vaddr % 2 ^ 21 ≡ 0
    → first_paddr % 2 ^ 21 ≡ 0
    → first_paddr + 2 ^ 30 ≤ 2 ^ 48
    → va < 2 ^ 48
    → vb / 2 ^ 48 ≡ first_vaddr / 2 ^ 48
    → (tables : PageTables) × (page_tables lvl1_lower lvl1_upper lvl2_upper first_vaddr first_paddr
        ≡ ok tables)
      × (walk_lower lvl1_lower tables va ≡ identity_window va)
      × (walk_upper lvl1_upper lvl2_upper tables vb ≡ kernel_window first_vaddr first_paddr vb)
page_tables-translate l1l l1u l2u fv fp va vb tl tu t2 av aligned small va_small half =
    let (tables, made, lower, upper) =
      page_tables-walks l1l l1u l2u fv fp tl tu t2 av aligned small in
    (tables, made, lower va va_small, upper vb half)
