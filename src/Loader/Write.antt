-- ===== src/Loader/Write.antt =====
-- `Loader.write_image`: the bytes of the boot image's file.
pub mod Reload
pub mod Copied
use sel4cp.Prelude.{
  ℕ, zero, suc, ◌+◌, ◌-◌, ◌*◌, ◌^◌, List, [], ◌∷◌, ◌++◌, Result, ok, struct_error, guard, ◌>>=◌,
  ◌>>◌, ltb, length, ℤ, pos, negsuc,
}
use sel4cp.Bytes.{Code, num, Format, pack}
use sel4cp.Loader.Overlap.{Region}
use sel4cp.Loader.Image.{LoaderHeader, Loader}

-- Two's complement in `n` bytes: what `i` and `q` pack.
abbrev pub signed : ℕ → ℤ → Result ℕ
signed n (pos a) = guard (ltb (2 * a) (256 ^ n)) struct_error >> ok a
signed n (negsuc a) = guard (ltb (2 * a) (256 ^ n)) struct_error >> ok (256 ^ n - 1 - a)

-- The formats of ten fields and of four, of a word each.
abbrev pub words_format : ℕ → ℕ → Format
words_format n zero = []
words_format n (suc k) = num n ∷ words_format n k

unfoldable pub header_values : ℕ → LoaderHeader → Result (List ℕ)
header_values n h = do
  pv_offset ← signed n h.pv_offset
  ok (
      h.magic ∷ h.flags ∷ h.kernel_entry ∷ h.ui_p_reg_start ∷ h.ui_p_reg_end ∷ pv_offset ∷ h.v_entry
      ∷ h.extra_device_addr_p ∷ h.extra_device_size ∷ h.num_regions ∷ [])

-- The loop over the regions, from an offset on.
unfoldable pub region_table : ℕ → ℕ → List Region → Result (List ℕ)
unfolding pack
region_table n offset [] = ok []
region_table n offset ((addr, bytes) ∷ regions) = do
  entry ← pack (words_format n 4) (addr ∷ length bytes ∷ offset ∷ 1 ∷ [])
  entries ← region_table n (offset + length bytes) regions
  ok (entry ++ entries)

abbrev pub region_bytes : List Region → List ℕ
region_bytes [] = []
region_bytes ((addr, bytes) ∷ regions) = bytes ++ region_bytes regions

unfoldable pub write_image : Loader → Result (List ℕ)
unfolding header_values pack region_table
write_image l = do
  values ← header_values l.word_bytes l.header
  header ← pack (words_format l.word_bytes 10) values
  table ← region_table l.word_bytes 0 l.regions
  ok (l.image ++ ((header ++ table) ++ region_bytes l.regions))
