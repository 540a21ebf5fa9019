-- ===== src/Loader/Image/Kernel.antt =====
-- Where the kernel's segments are loaded, and where the loader's tables find them.
use sel4cp.Prelude.{
  ℕ, ◌+◌, ◌-◌, ◌/◌, ◌%◌, ◌^◌, ◌≤◌, ◌≡◌, inl, inr, sym, ap, ◌∙◌, Bool, true, false, Bool-cases, none,
  some, List, [], ◌∷◌, arith, ok, err, exception, ok_injective, >>=-eq-ok, leb, ltb, ◌==◌,
  if◌then◌else◌, All, some_injective,
}
use sel4cp.Elf.Types.{ElfSegment, is_loadable, phys_addr, virt_addr}
use sel4cp.Loader.Tables.{PageTables, page_tables}
use sel4cp.Loader.Tables.Walk.{walk_upper, kernel_window}
use sel4cp.Loader.Tables.Translate.{IsTableAddress, page_tables-walks}
use sel4cp.Loader.Image.{diff, same_int, KernelSpan, widen, kernel_span}

-- An address lies in the span, and its physical address as far into the physical one.
abbrev pub Moves : KernelSpan → ℕ → ℕ → Type 0
Moves s v p = (s.first_vaddr ≤ v) × (p ≡ s.first_paddr + (v - s.first_vaddr))

abbrev pub MovesSegment : KernelSpan → ElfSegment → Type 0
MovesSegment s seg = is_loadable seg ≡ true → Moves s (virt_addr seg) (phys_addr seg)

abbrev Consistent : KernelSpan → Type 0
Consistent s = s.p_v_offset ≡ diff s.first_vaddr s.first_paddr

same_int-diff : (a b c d : ℕ) → same_int (diff a b) (diff c d) ≡ true → a + d ≡ c + b
same_int-diff a b c d h = ground arith

diff_same : (a b c d : ℕ) → a + d ≡ c + b → diff a b ≡ diff c d
diff_same a b c d h = ground arith

-- One more segment: what the span becomes.
widen-Moves :
    (s0 s1 : KernelSpan) (seg : ElfSegment)
    → Consistent s0
    → widen (some s0) seg ≡ ok s1
    → Consistent s1
      × Moves s1 s0.first_vaddr s0.first_paddr
      × Moves s1 (virt_addr seg) (phys_addr seg)
widen-Moves s0 s1 seg c h =
    let v = virt_addr seg in
    let p = phys_addr seg in
    elim (Bool-cases (same_int s0.p_v_offset (diff v p))) [
      | inl e ↦
          let same : s0.first_vaddr + p ≡ v + s0.first_paddr =
            same_int-diff s0.first_vaddr s0.first_paddr v p
              (ap (λ t. same_int t (diff v p)) (sym c) ∙ e) in
          let made = ok_injective (rw e at h) in
          let fv : (if ltb v s0.first_vaddr then v else s0.first_vaddr) ≡ s1.first_vaddr =
            ap (λ s. s.first_vaddr) made in
          let fp : (if ltb p s0.first_paddr then p else s0.first_paddr) ≡ s1.first_paddr =
            ap (λ s. s.first_paddr) made in
          let off : s0.p_v_offset ≡ s1.p_v_offset = ap (λ s. s.p_v_offset) made in
          let (o, m0, m1) =
            least s0.first_vaddr s0.first_paddr v p s1.first_vaddr s1.first_paddr same fv fp in
          (
            sym off ∙ c ∙ diff_same s0.first_vaddr s0.first_paddr s1.first_vaddr s1.first_paddr o,
            m0,
            m1,
          )
      | inr e ↦ absurd (raised (rw e at h))
    ]
  where
    raised : err exception ≡ ok s1 → ⊥
    raised h = cc

    least :
        (a b v p c d : ℕ)
        → a + p ≡ v + b
        → (if ltb v a then v else a) ≡ c
        → (if ltb p b then p else b) ≡ d
        → (a + d ≡ c + b) × ((c ≤ a) × (b ≡ d + (a - c))) × ((c ≤ v) × (p ≡ d + (v - c)))
    least a b v p c d same fv fp = ground arith

Moves-trans :
    (s1 s : KernelSpan) (v p : ℕ)
    → Moves s s1.first_vaddr s1.first_paddr
    → Moves s1 v p
    → Moves s v p
Moves-trans s1 s v p (below, at) (below', at') = (omega arith, omega arith)

not_both : (b : Bool) → b ≡ true → b ≡ false → ⊥
not_both b h k = cc

kernel_span-Moves :
    (s0 s : KernelSpan) (segs : List ElfSegment)
    → Consistent s0
    → kernel_span (some s0) segs ≡ ok (some s)
    → Moves s s0.first_vaddr s0.first_paddr × All (MovesSegment s) segs
unfolding kernel_span
kernel_span-Moves s0 s [] c h =
    let same : s0 ≡ s = some_injective (ok_injective h) in
    let fv : s0.first_vaddr ≡ s.first_vaddr = ap (λ t. t.first_vaddr) same in
    let fp : s0.first_paddr ≡ s.first_paddr = ap (λ t. t.first_paddr) same in
    ((omega arith, omega arith), tt)
kernel_span-Moves s0 s (seg ∷ segs) c h = elim (Bool-cases (is_loadable seg)) [
  | inl e ↦
      let (s1, made, rest) =
        >>=-eq-ok (widen (some s0) seg) (λ t. kernel_span (some t) segs)
          (rw (e, kernel_span) at h) in
      let (c1, m0, m1) = widen-Moves s0 s1 seg c made in
      let (m, all) = kernel_span-Moves s1 s segs c1 rest in
      (
        Moves-trans s1 s s0.first_vaddr s0.first_paddr m m0,
        (λ load. Moves-trans s1 s (virt_addr seg) (phys_addr seg) m m1, all),
      )
  | inr e ↦
      let (m, all) = kernel_span-Moves s0 s segs c (rw (e, kernel_span) at h) in
      (m, (λ load. absurd (not_both (is_loadable seg) load e), all))
]

-- After the loop over the kernel's segments, the first addresses are below those of every loadable
-- segment, and each lies as far behind the first physical address as behind the first virtual one.
pub kernel_span-MovesSegment :
    (s : KernelSpan) (segs : List ElfSegment)
    → kernel_span none segs ≡ ok (some s)
    → All (MovesSegment s) segs
unfolding kernel_span
kernel_span-MovesSegment s [] h = tt
kernel_span-MovesSegment s (seg ∷ segs) h = elim (Bool-cases (is_loadable seg)) [
  | inl e ↦
      let (s1, made, rest) =
        >>=-eq-ok (widen none seg) (λ t. kernel_span (some t) segs) (rw (e, kernel_span) at h) in
      let first = ok_injective made in
      let fv : virt_addr seg ≡ s1.first_vaddr = ap (λ t. t.first_vaddr) first in
      let fp : phys_addr seg ≡ s1.first_paddr = ap (λ t. t.first_paddr) first in
      let off : diff (virt_addr seg) (phys_addr seg) ≡ s1.p_v_offset =
        ap (λ t. t.p_v_offset) first in
      let c1 : Consistent s1 = sym off ∙ diff_same _ _ _ _ (omega arith) in
      let (m, all) = kernel_span-Moves s1 s segs c1 rest in
      ((λ load. Moves-trans s1 s (virt_addr seg) (phys_addr seg) m (omega arith, omega arith)), all)
  | inr e ↦ (
    (λ load. absurd (not_both (is_loadable seg) load e)),
    kernel_span-MovesSegment s segs (rw (e, kernel_span) at h),
  )
]

-- The bytes of a segment that are in the same 1 GiB as the span's start are reached where they lie.
abbrev pub Reached : ℕ → ℕ → PageTables → KernelSpan → ElfSegment → Type 0
Reached lvl1_addr lvl2_addr tables s seg =
    is_loadable seg ≡ true
    → (k : ℕ) → (virt_addr seg + k) / 2 ^ 30 ≡ s.first_vaddr / 2 ^ 30
    → walk_upper lvl1_addr lvl2_addr tables (virt_addr seg + k) ≡ some (phys_addr seg + k)

pub page_tables-Reached :
    (l1l l1u l2u : ℕ) (s : KernelSpan) (segs : List ElfSegment)
    → kernel_span none segs ≡ ok (some s)
    → IsTableAddress l1l
    → IsTableAddress l1u
    → IsTableAddress l2u
    → s.first_vaddr % 2 ^ 21 ≡ 0
    → s.first_paddr % 2 ^ 21 ≡ 0
    → s.first_paddr + 2 ^ 30 ≤ 2 ^ 48
    → (tables : PageTables) × (page_tables l1l l1u l2u s.first_vaddr s.first_paddr ≡ ok tables)
      × All (Reached l1u l2u tables s) segs
page_tables-Reached l1l l1u l2u s segs h tl tu t2 av aligned small =
    let (tables, made, _, upper) =
      page_tables-walks l1l l1u l2u s.first_vaddr s.first_paddr tl tu t2 av aligned small in
    (tables, made, reach tables upper segs (kernel_span-MovesSegment s segs h))
  where
    window :
        (fv fp v p k : ℕ)
        → fv ≤ v
        → p ≡ fp + (v - fv)
        → (v + k) / 2 ^ 30 ≡ fv / 2 ^ 30
        → kernel_window fv fp (v + k) ≡ some (p + k)
    window fv fp v p k below at same =
        let gib : ((v + k) / 2 ^ 30 == fv / 2 ^ 30) ≡ true = ground arith in
        let low : leb fv (v + k) ≡ true = ground arith in rw (gib, low) (ap some (omega arith))

    reach :
        (tables : PageTables)
        → ((va : ℕ)
            → va / 2 ^ 48 ≡ s.first_vaddr / 2 ^ 48
            → walk_upper l1u l2u tables va ≡ kernel_window s.first_vaddr s.first_paddr va)
        → (segs : List ElfSegment) → All (MovesSegment s) segs
        → All (Reached l1u l2u tables s) segs
    reach tables upper [] m = tt
    reach tables upper (seg ∷ segs) m = (
      (λ load k same.
          let (below, at) = m.0 load in
          upper (virt_addr seg + k) (omega arith)
          ∙ window s.first_vaddr s.first_paddr (virt_addr seg) (phys_addr seg) k below at same),
      reach tables upper segs m.1,
    )
