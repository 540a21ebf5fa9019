-- ===== src/Loader/Image/Built.antt =====
-- What `Loader.__init__` has checked where it returns.
use sel4cp.Prelude.{
  ℕ, ◌+◌, ◌-◌, ◌≡◌, sym, ap, subst, ◌∙◌, not, Option, none, some, List, ok, assertion, exception,
  guard, raise_if, >>=-eq-ok, ok_injective, ltb, ◌==◌, length,
}
use sel4cp.Words.{kb, round_up}
use sel4cp.Memory.{MemoryRegion}
use sel4cp.Elf.Types.{ElfSegment, ElfFile, mem_size, virt_addr}
use sel4cp.Loader.Tables.{setup_pagetables}
use sel4cp.Loader.Overlap.{
  Region, NonOverlapping, check_non_overlapping, check_non_overlapping-NonOverlapping,
}
use sel4cp.Loader.Image.{
  KernelSpan, loadable_segment, kernel_span, found_span, only_segment, task_paddr, all_regions,
  set_variables, finish, Loader, loader,
}

found_span-some :
    (found : Option KernelSpan) (s : KernelSpan) → found_span found ≡ ok s → found ≡ some s
found_span-some none s h = cc
found_span-some (some t) s h = ap some (ok_injective h)

-- The header counts the regions, which do not overlap.
abbrev pub IsBuilt : Loader → Type 0
IsBuilt l = (l.header.num_regions ≡ length l.regions) × NonOverlapping l.regions

pub finish-IsBuilt :
    (elf kernel_elf task : ElfFile) (t : ElfSegment) (first : ℕ) (reserved : MemoryRegion)
    (image : List ℕ) (all : List Region) (l : Loader)
    → finish elf kernel_elf task t first reserved image all ≡ ok l
    → IsBuilt l
unfolding finish
finish-IsBuilt elf kernel_elf task t first reserved image all l h =
    let last = round_up (virt_addr t + mem_size t) (kb 4) in
    let (_, _, h8) = >>=-eq-ok (guard (ltb first (last + first - virt_addr t)) assertion) _ h in
    let (_, checked, same) = >>=-eq-ok (check_non_overlapping all) _ h8 in
    let made = ok_injective same in
    let held : all ≡ l.regions = ap (λ t. t.regions) made in
    let counted : length all ≡ l.header.num_regions = ap (λ t. t.header.num_regions) made in
    (
      sym counted ∙ ap length held,
      subst NonOverlapping held ((check_non_overlapping-NonOverlapping all).0 checked),
    )

pub loader-IsBuilt :
    (elf kernel_elf task : ElfFile) (base : Option ℕ) (reserved : MemoryRegion)
    (regions : List Region) (l : Loader)
    → loader elf kernel_elf task base reserved regions ≡ ok l
    → IsBuilt l × ((s : KernelSpan) × (kernel_span none kernel_elf.segments ≡ ok (some s)))
unfolding loader
loader-IsBuilt elf kernel_elf task base reserved regions l h =
    let (seg, _, h1) = >>=-eq-ok (loadable_segment elf.segments) _ h in
    let (_, _, h2) = >>=-eq-ok (raise_if (not (virt_addr seg == elf.entry)) exception) _ h1 in
    let (found, spanned, h3) = >>=-eq-ok (kernel_span none kernel_elf.segments) _ h2 in
    let (s, some_span, h4) = >>=-eq-ok (found_span found) _ h3 in
    let (t, _, h5) = >>=-eq-ok (only_segment task.segments) _ h4 in
    let (tables, _, h6) = >>=-eq-ok (setup_pagetables elf s.first_vaddr s.first_paddr) _ h5 in
    let (image, _, h7) = >>=-eq-ok (set_variables elf (virt_addr seg) tables seg.contents) _ h6 in
    let first = task_paddr base t in
    (
      finish-IsBuilt elf kernel_elf task t first reserved image
          (all_regions kernel_elf t first regions) l h7,
      (s, spanned ∙ ap ok (found_span-some found s some_span)),
    )
