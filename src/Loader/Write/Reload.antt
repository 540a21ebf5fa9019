-- ===== src/Loader/Write/Reload.antt =====
-- The loader's copying of the regions (loader/src/loader.c), on the file that `write_image` writes.
use mathlib.Core.List.{append_assoc}
use sel4cp.Prelude.{
  ℕ, zero, suc, ◌+◌, ◌*◌, ◌≡◌, refl, sym, ap, ◌∙◌, List, [], ◌∷◌, ◌++◌, arith, ok, >>=-eq-ok,
  ok_injective, guard-eq-ok, struct_error, some, get_elem?, some_injective, length, length-append,
  take, drop, take-append, drop-append,
}
use sel4cp.Bytes.{word_of, fields_of, size_of, fits_format, packed, pack}
use sel4cp.Bytes.Laws.{fields_of-packed, length-pack, take_prefix, drop_prefix}
use sel4cp.Elf.Symbols.{slice}
use sel4cp.Loader.Tables.Entries.{drop-drop}
use sel4cp.Loader.Overlap.{Region}
use sel4cp.Loader.Image.{LoaderHeader, Loader}
use sel4cp.Loader.Write.{
  signed, words_format, header_values, region_table, region_bytes, write_image,
}

-- The word of `n` bytes at a place.
abbrev pub word_at : ℕ → ℕ → List ℕ → ℕ
word_at n place bs = word_of (slice (n * place) n bs)

-- The loop of `copy_data`: the address and the bytes of each `memcpy`.
unfoldable pub copies : ℕ → List ℕ → ℕ → List ℕ → List Region
copies n base zero table = []
copies n base (suc count) table =
    (word_at n 0 table, slice (word_at n 2 table) (word_at n 1 table) base)
    ∷ copies n base count (drop (4 * n) table)

-- `loader_data->num_regions`.
abbrev pub num_regions : ℕ → List ℕ → ℕ
num_regions n loader_data = word_at n 9 loader_data

-- The copies that `copy_data` makes, as they stand in the bytes from
-- `loader_data` on: ten words, the regions, and `base`.
unfoldable pub copy_data : ℕ → List ℕ → List Region
unfolding copies
copy_data n loader_data =
    let count = num_regions n loader_data in
    let regions = drop (10 * n) loader_data in
    copies n (drop (count * (4 * n)) regions) count regions

-- The fields of a format of words are the words, in order.
get_elem?-words :
    (n m k v : ℕ) (bs vs : List ℕ)
    → fields_of (words_format n m) bs ≡ vs
    → get_elem? vs k ≡ some v
    → word_at n k bs ≡ v
get_elem?-words n zero k v bs vs h e = absurd (beyond (ap (λ t. get_elem? t k) h ∙ e))
  where
    beyond : {v : ℕ} → get_elem? [] k ≡ some v → ⊥
    beyond e = cc
get_elem?-words n (suc m) zero v bs vs h e =
    let front : n * 0 ≡ 0 = omega arith in
    some_injective
      (ap (λ t. some (word_of (take n (drop t bs)))) front ∙ ap (λ t. get_elem? t zero) h ∙ e)
get_elem?-words n (suc m) (suc k) v bs vs h e =
    let later : n * suc k ≡ n + n * k = omega arith in
    ap (λ t. word_of (take n (drop t bs))) later
    ∙ ap (λ t. word_of (take n t)) (sym (drop-drop n (n * k) bs))
    ∙ get_elem?-words n m k v (drop n bs) (tail_of vs) (ap tail_of h) (behind vs e)
  where
    tail_of : List ℕ → List ℕ
    tail_of [] = []
    tail_of (x ∷ xs) = xs

    behind : (vs : List ℕ) → get_elem? vs (suc k) ≡ some v → get_elem? (tail_of vs) k ≡ some v
    behind [] e = cc
    behind (x ∷ xs) e = e

word_at-pack :
    (n m k v : ℕ) (vs bs rest : List ℕ)
    → pack (words_format n m) vs ≡ ok bs
    → get_elem? vs k ≡ some v
    → word_at n k (bs ++ rest) ≡ v
unfolding pack
word_at-pack n m k v vs bs rest h e =
    let (fit, made) =
      guard-eq-ok (fits_format (words_format n m) vs) struct_error
        (ok (packed (words_format n m) vs)) h in
    let (same, _) = fields_of-packed (words_format n m) vs rest fit in
    let joined : packed (words_format n m) vs ≡ bs = ok_injective made in
    get_elem?-words n m k v (bs ++ rest) vs
      (ap (λ t. fields_of (words_format n m) (t ++ rest)) (sym joined) ∙ same) e

slice_part :
    (n o : ℕ) (file front xs back : List ℕ)
    → file ≡ front ++ (xs ++ back)
    → o ≡ length front
    → length xs ≡ n
    → slice o n file ≡ xs
slice_part n o file front xs back e p h =
    ap (slice o n) e
    ∙ ap (take n) (drop_prefix o front (xs ++ back) (sym p))
    ∙ take_prefix n xs back h

copies-region_table :
    (n offset : ℕ) (rs : List Region) (table base front rest : List ℕ)
    → region_table n offset rs ≡ ok table
    → base ≡ front ++ region_bytes rs
    → offset ≡ length front
    → copies n base (length rs) (table ++ rest) ≡ rs
unfolding copies region_table
copies-region_table n offset [] table base front rest h e o = refl
copies-region_table n offset ((addr, bytes) ∷ rs) table base front rest h e o =
    let vs = addr ∷ length bytes ∷ offset ∷ 1 ∷ [] in
    let (entry, made, more) = >>=-eq-ok (pack (words_format n 4) vs) _ h in
    let (entries, later, same) = >>=-eq-ok (region_table n (offset + length bytes) rs) _ more in
    let parts : table ++ rest ≡ entry ++ (entries ++ rest) =
      ap (λ t. t ++ rest) (sym (ok_injective same)) ∙ append_assoc entry entries rest in
    let word : (k v : ℕ) → get_elem? vs k ≡ some v → word_at n k (entry ++ (entries ++ rest)) ≡ v =
      λ k v get. word_at-pack n 4 k v vs entry (entries ++ rest) made get in
    let size : length entry ≡ 4 * n = length-pack (words_format n 4) vs entry made ∙ omega arith in
    let others : copies n base (length rs) (drop (4 * n) (entry ++ (entries ++ rest))) ≡ rs =
      ap (copies n base (length rs)) (drop_prefix (4 * n) entry (entries ++ rest) size)
      ∙ copies-region_table n (offset + length bytes) rs entries base (front ++ bytes) rest later
          (e ∙ sym (append_assoc front bytes (region_bytes rs)))
          (omega (arith, length-append front bytes)) in
    rw
      (
        parts,
        word 0 addr refl,
        word 1 (length bytes) refl,
        word 2 offset refl,
        others,
        slice_part (length bytes) offset base front bytes (region_bytes rs) e o refl,
      )
      refl

length-region_table :
    (n offset : ℕ) (rs : List Region) (table : List ℕ)
    → region_table n offset rs ≡ ok table
    → length table ≡ length rs * (4 * n)
unfolding region_table
length-region_table n offset [] table h = ap length (sym (ok_injective h)) ∙ omega arith
length-region_table n offset ((addr, bytes) ∷ rs) table h =
    let vs = addr ∷ length bytes ∷ offset ∷ 1 ∷ [] in
    let (entry, made, more) = >>=-eq-ok (pack (words_format n 4) vs) _ h in
    let (entries, later, same) = >>=-eq-ok (region_table n (offset + length bytes) rs) _ more in
    let size = length-pack (words_format n 4) vs entry made in
    let ih = length-region_table n (offset + length bytes) rs entries later in
    ap length (sym (ok_injective same))
    ∙ length-append entry entries
    ∙ by_rows (length rs) n (length entry) (length entries) size ih
  where
    by_rows :
        (r n a b : ℕ) → a ≡ size_of (words_format n 4) → b ≡ r * (4 * n) → a + b ≡ suc r * (4 * n)
    by_rows r n a b p q =
        let more : suc r * (4 * n) ≡ 4 * n + r * (4 * n) = omega arith in omega (arith, more)

last_value :
    (n : ℕ) (h : LoaderHeader) (values : List ℕ)
    → header_values n h ≡ ok values
    → get_elem? values 9 ≡ some h.num_regions
unfolding header_values
last_value n h values e =
    let (pv, _, same) = >>=-eq-ok (signed n h.pv_offset) _ e in
    ap (λ t. get_elem? t 9) (sym (ok_injective same))

-- In the file of a boot image whose header counts its regions, the image is followed by the data from
-- which the loader's `copy_data` copies exactly the regions: the bytes of each to its address.
pub copy_data-write_image :
    (l : Loader) (file : List ℕ)
    → l.header.num_regions ≡ length l.regions
    → write_image l ≡ ok file
    → (take (length l.image) file ≡ l.image)
      × (num_regions l.word_bytes (drop (length l.image) file) ≡ length l.regions)
      × (copy_data l.word_bytes (drop (length l.image) file) ≡ l.regions)
unfolding write_image copy_data
copy_data-write_image l file counted h =
    let n = l.word_bytes in
    let (values, valued, h1) = >>=-eq-ok (header_values n l.header) _ h in
    let (header, packed_header, h2) = >>=-eq-ok (pack (words_format n 10) values) _ h1 in
    let (table, tabled, same) = >>=-eq-ok (region_table n 0 l.regions) _ h2 in
    let all = region_bytes l.regions in
    let parts : file ≡ l.image ++ ((header ++ table) ++ all) = sym (ok_injective same) in
    let behind : drop (length l.image) file ≡ header ++ (table ++ all) =
      ap (drop (length l.image)) parts
      ∙ drop-append l.image ((header ++ table) ++ all)
      ∙ append_assoc header table all in
    let size : length header ≡ 10 * n =
      length-pack (words_format n 10) values header packed_header ∙ omega arith in
    let count : word_at n 9 (header ++ (table ++ all)) ≡ length l.regions =
      word_at-pack n 10 9 l.header.num_regions values header (table ++ all) packed_header
        (last_value n l.header values valued)
      ∙ counted in
    let regions : drop (10 * n) (header ++ (table ++ all)) ≡ table ++ all =
      drop_prefix (10 * n) header (table ++ all) size in
    let base : drop (length l.regions * (4 * n)) (table ++ all) ≡ all =
      drop_prefix (length l.regions * (4 * n)) table all
        (length-region_table n 0 l.regions table tabled) in
    (
      ap (take (length l.image)) parts ∙ take-append l.image _,
      ap (num_regions n) behind ∙ count,
      rw (behind, count, regions, base)
          (copies-region_table n 0 l.regions table all [] all tabled refl refl),
    )
