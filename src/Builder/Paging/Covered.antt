-- ===== src/Builder/Paging/Covered.antt =====
-- Every page that is mapped has its paging structures, each once.
use sel4cp.Prelude.{
  ℕ, zero, suc, ◌+◌, ◌<◌, ◌*◌, false, ◌==◌, Bool-cases, inl, inr, if◌then◌else◌, All-append_inv,
  ◌/◌, ◌^◌, ◌≤◌, ◌≡◌, sym, subst, true, List, [], ◌∷◌, ok, ok_injective, assertion, >>=-eq-ok,
  guard-eq-ok, ltb, arith, All, All-imp,
}
use sel4cp.Words.{mask_bits}
use sel4cp.Description.{SysMap, SysMemoryRegion, has_number}
use sel4cp.Builder.Paging.{
  find_region, pages_from, page_vaddrs, add, parts, of_small_pages, of_all_pages, Structures,
  structures,
}

-- Numbers that rise strictly, from a bound on.
abbrev pub Rises : ℕ → List ℕ → Type 0
Rises low [] = Unit
Rises low (x ∷ xs) = (low ≤ x) × Rises (suc x) xs

has-add : (n : ℕ) (xs : List ℕ) → has_number n (add n xs) ≡ true
has-add n [] = ground arith
has-add n (x ∷ xs) = ground (arith, has-add n xs)

keeps-add : (n m : ℕ) (xs : List ℕ) → has_number m xs ≡ true → has_number m (add n xs) ≡ true
keeps-add n m [] h = cc
keeps-add n m (x ∷ xs) h = ground (arith, keeps-add n m xs)

Rises-add : (n low : ℕ) (xs : List ℕ) → low ≤ n → Rises low xs → Rises low (add n xs)
Rises-add n low [] h r = (h, tt)
Rises-add n low (x ∷ xs) h r = ground (arith, Rises-add n (suc x) xs)

-- The parts cover the addresses and rise.
abbrev pub PartsOf : ℕ → List ℕ → List ℕ → Type 0
PartsOf bits vaddrs out =
    All (λ v. has_number (v / 2 ^ bits * 2 ^ bits) out ≡ true) vaddrs × Rises 0 out

parts-PartsOf :
    (bits : ℕ) (vaddrs : List ℕ) {out : List ℕ}
    → parts bits vaddrs ≡ ok out
    → PartsOf bits vaddrs out
unfolding parts mask_bits
parts-PartsOf bits [] h = subst (PartsOf bits []) (ok_injective h) (tt, tt)
parts-PartsOf bits (v ∷ vs) h =
    let (part, masked, h1) = >>=-eq-ok (mask_bits v bits) _ h in
    let (rest, more, same) = >>=-eq-ok (parts bits vs) _ h1 in
    let (_, value) = guard-eq-ok (ltb 0 v) assertion (ok (v / 2 ^ bits * 2 ^ bits)) masked in
    let e = ok_injective value in
    let (covered, rises) = parts-PartsOf bits vs more in
    subst (PartsOf bits (v ∷ vs)) (ok_injective same) (
      (
        subst (λ t. has_number t (add part rest) ≡ true) (sym e) (has-add part rest),
        All-imp vs (λ w. keeps-add part (w / 2 ^ bits * 2 ^ bits) rest) covered,
      ),
      Rises-add part 0 rest (omega arith) rises,
    )

-- The pages of a map, one behind the other.
pages_from-All :
    (Q : ℕ × ℕ → Type 0) (vaddr page_size n : ℕ)
    → All Q (pages_from vaddr page_size n)
    → (j : ℕ) → j < n
    → Q (vaddr + j * page_size, page_size)
pages_from-All Q vaddr page_size zero h j less = absurd (omega (arith, less))
pages_from-All Q vaddr page_size (suc n) h zero less =
    let e : vaddr ≡ vaddr + 0 * page_size = omega arith in subst (λ t. Q (t, page_size)) e h.0
pages_from-All Q vaddr page_size (suc n) h (suc j) less =
    let e : vaddr + page_size + j * page_size ≡ vaddr + suc j * page_size = grind arith in
    subst (λ t. Q (t, page_size)) e
      (pages_from-All Q (vaddr + page_size) page_size n h.1 j (omega arith))

-- What holds of all pages holds of each page of each map.
abbrev OfPages : (ℕ × ℕ → Type 0) → List SysMemoryRegion → SysMap → Type 0
OfPages Q mrs mp =
    (mr : SysMemoryRegion) × (find_region mp.mr mrs ≡ ok mr)
    × ((j : ℕ) → j < mr.page_count → Q (mp.vaddr + j * mr.page_size, mr.page_size))

page_vaddrs-All :
    (Q : ℕ × ℕ → Type 0) (mrs : List SysMemoryRegion) (maps : List SysMap) {pages : List (ℕ × ℕ)}
    → page_vaddrs mrs maps ≡ ok pages
    → All Q pages
    → All (OfPages Q mrs) maps
unfolding page_vaddrs
page_vaddrs-All Q mrs [] h q = tt
page_vaddrs-All Q mrs (mp ∷ mps) h q =
    let (mr, found, h1) = >>=-eq-ok (find_region mp.mr mrs) _ h in
    let (rest, more, same) = >>=-eq-ok (page_vaddrs mrs mps) _ h1 in
    let (here, later) =
      All-append_inv Q (pages_from mp.vaddr mr.page_size mr.page_count) rest
        (subst (All Q) (sym (ok_injective same)) q) in
    (
      (mr, found, pages_from-All Q mp.vaddr mr.page_size mr.page_count here),
      page_vaddrs-All Q mrs mps more later,
    )

of_all_pages-All :
    (P : ℕ → Type 0) (pages : List (ℕ × ℕ))
    → All P (of_all_pages pages)
    → All (λ page. P page.0) pages
of_all_pages-All P [] h = tt
of_all_pages-All P ((v, size) ∷ pages) h = (h.0, of_all_pages-All P pages h.1)

of_small_pages-All :
    (P : ℕ → Type 0) (pages : List (ℕ × ℕ))
    → All P (of_small_pages pages)
    → All (λ page. page.1 ≡ 0x1000 → P page.0) pages
of_small_pages-All P [] h = tt
of_small_pages-All P ((v, size) ∷ pages) h = elim (Bool-cases (size == 0x1000)) [
  | inl small ↦
      let both : All P (v ∷ of_small_pages pages) =
        subst (λ b. All P (if b then v ∷ of_small_pages pages else of_small_pages pages)) small h in
      ((λ _. both.0), of_small_pages-All P pages both.1)
  | inr large ↦
      let rest =
        subst (λ b. All P (if b then v ∷ of_small_pages pages else of_small_pages pages)) large h in
      ((λ e. absurd (large_size e large)), of_small_pages-All P pages rest)
]
  where
    large_size : size ≡ 0x1000 → ¬ ((size == 0x1000) ≡ false)
    large_size e large = ground arith

-- The structures hold the parts of the page at an address, and where it has 4 KiB its page table.
pub record HasParts (out : Structures) (vaddr page_size : ℕ) : Type 0 where
  pub upper : has_number (vaddr / 2 ^ 39 * 2 ^ 39) out.uds ≡ true
  pub directory : has_number (vaddr / 2 ^ 30 * 2 ^ 30) out.ds ≡ true
  pub table : page_size ≡ 0x1000 → has_number (vaddr / 2 ^ 21 * 2 ^ 21) out.pts ≡ true

-- The region of the map is found, and each of its pages, which lie one behind the other from the
-- address of the map on, has its parts.
abbrev pub IsCovered : List SysMemoryRegion → Structures → SysMap → Type 0
IsCovered mrs out mp =
    (mr : SysMemoryRegion) × (find_region mp.mr mrs ≡ ok mr)
    × ((j : ℕ) → j < mr.page_count → HasParts out (mp.vaddr + j * mr.page_size) mr.page_size)

three_parts :
    (out : Structures) (pages : List (ℕ × ℕ))
    → All (λ page. has_number (page.0 / 2 ^ 39 * 2 ^ 39) out.uds ≡ true) pages
    → All (λ page. has_number (page.0 / 2 ^ 30 * 2 ^ 30) out.ds ≡ true) pages
    → All (λ page. page.1 ≡ 0x1000 → has_number (page.0 / 2 ^ 21 * 2 ^ 21) out.pts ≡ true) pages
    → All (λ page. HasParts out page.0 page.1) pages
three_parts out [] u d p = tt
three_parts out (page ∷ pages) u d p =
    (record { upper = u.0; directory = d.0; table = p.0 }, three_parts out pages u.1 d.1 p.1)

-- Where the structures are found: the upper directories, directories and page tables of a domain have
-- rising addresses, so that none is made twice, and each map has a region, and for each of as many
-- pages as the region has, one behind the other from the address of the map on, there are the upper
-- directory of the 512 GiB and the directory of the 1 GiB that it lies in, and where the region's
-- pages have 4 KiB the page table of its 2 MiB.
pub structures-PartsOf :
    (mrs : List SysMemoryRegion) (maps : List SysMap) (out : Structures)
    → structures mrs maps ≡ ok out
    → All (IsCovered mrs out) maps × Rises 0 out.uds × Rises 0 out.ds × Rises 0 out.pts
unfolding structures
structures-PartsOf mrs maps out h =
    let (pages, found, h1) = >>=-eq-ok (page_vaddrs mrs maps) _ h in
    let (uds, u, h2) = >>=-eq-ok (parts 39 (of_all_pages pages)) _ h1 in
    let (ds, d, h3) = >>=-eq-ok (parts 30 (of_all_pages pages)) _ h2 in
    let (pts, p, same) = >>=-eq-ok (parts 21 (of_small_pages pages)) _ h3 in
    let (us, ur) = parts-PartsOf 39 (of_all_pages pages) u in
    let (dir, dr) = parts-PartsOf 30 (of_all_pages pages) d in
    let (ps, pr) = parts-PartsOf 21 (of_small_pages pages) p in
    let made : Structures = record { uds = uds; ds = ds; pts = pts } in
    let all =
      three_parts made pages (of_all_pages-All _ pages us) (of_all_pages-All _ pages dir)
        (of_small_pages-All _ pages ps) in
    subst (λ r. All (IsCovered mrs r) maps × Rises 0 r.uds × Rises 0 r.ds × Rises 0 r.pts)
      (ok_injective same)
      (page_vaddrs-All (λ page. HasParts made page.0 page.1) mrs maps found all, ur, dr, pr)
