-- ===== src/Builder/Paging.antt =====
-- Which paging structures the builder of tool/sel4coreplat/__main__.py makes for a protection domain:
-- for each page that is mapped, the parts of the address space that it lies in.
pub mod Covered
use Prim.Native.String.{String}
use text.Mathlib.Text.{◌==◌ as str_eq}
use sel4cp.Prelude.{
  ℕ, zero, suc, ◌+◌, Bool, true, false, List, [], ◌∷◌, ◌++◌, map, Result, ok, err, key_error, ◌>>=◌,
  ltb, ◌==◌, if◌then◌else◌,
}
use sel4cp.Words.{mask_bits}
use sel4cp.Description.{SysMap, SysMemoryRegion}

-- `all_mr_by_name`: the last region of the name.
unfoldable pub find_region : String → List SysMemoryRegion → Result SysMemoryRegion
find_region name [] = err key_error
find_region name (mr ∷ mrs) = elim (find_region name mrs) [
  | ok later ↦ ok later
  | err e ↦ if str_eq name mr.name then ok mr else err e
]

-- The pages of one map, each with its size.
abbrev pub pages_from : ℕ → ℕ → ℕ → List (ℕ × ℕ)
pages_from vaddr page_size zero = []
pages_from vaddr page_size (suc n) = (vaddr, page_size) ∷ pages_from (vaddr + page_size) page_size n

unfoldable pub page_vaddrs : List SysMemoryRegion → List SysMap → Result (List (ℕ × ℕ))
unfolding find_region
page_vaddrs mrs [] = ok []
page_vaddrs mrs (mp ∷ mps) = do
  mr ← find_region mp.mr mrs
  rest ← page_vaddrs mrs mps
  ok (pages_from mp.vaddr mr.page_size mr.page_count ++ rest)

-- A set of numbers as the sorted list that it ends as.
abbrev pub add : ℕ → List ℕ → List ℕ
add n [] = n ∷ []
add n (x ∷ xs) = if n == x then x ∷ xs else if ltb n x then n ∷ x ∷ xs else x ∷ add n xs

-- The parts of 2 ** bits bytes that the addresses lie in.
unfoldable pub parts : ℕ → List ℕ → Result (List ℕ)
parts bits [] = ok []
parts bits (vaddr ∷ vaddrs) = do
  part ← mask_bits vaddr bits
  rest ← parts bits vaddrs
  ok (add part rest)

abbrev pub of_small_pages : List (ℕ × ℕ) → List ℕ
of_small_pages [] = []
of_small_pages ((vaddr, page_size) ∷ pages) =
    if page_size == 0x1000 then vaddr ∷ of_small_pages pages else of_small_pages pages

abbrev pub of_all_pages : List (ℕ × ℕ) → List ℕ
of_all_pages [] = []
of_all_pages ((vaddr, page_size) ∷ pages) = vaddr ∷ of_all_pages pages

-- The addresses of the upper directories, directories and page tables.
pub record Structures : Type 0 where
  pub uds : List ℕ
  pub ds : List ℕ
  pub pts : List ℕ

unfoldable pub structures : List SysMemoryRegion → List SysMap → Result Structures
unfolding page_vaddrs parts
structures mrs maps = do
  pages ← page_vaddrs mrs maps
  uds ← parts (12 + 9 + 9 + 9) (of_all_pages pages)
  ds ← parts (12 + 9 + 9) (of_all_pages pages)
  pts ← parts (12 + 9) (of_small_pages pages)
  ok (record { uds = uds; ds = ds; pts = pts })

-- With the number of the domain, as the descriptors of the mapping have them.
unfoldable pub numbered : ℕ → List ℕ → List (ℕ × ℕ)
numbered pd_idx vaddrs = map (λ v. (pd_idx, v)) vaddrs
