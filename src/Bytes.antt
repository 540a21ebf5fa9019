-- ===== src/Bytes.antt =====
-- Little-endian numbers in bytes, and the formats of Python's `struct` that the tool uses: unsigned
-- fields of some bytes each, and padding.
pub mod Laws
use sel4cp.Prelude.{
  ℕ, zero, suc, ◌+◌, ◌*◌, ◌/◌, ◌%◌, ◌^◌, Bool, true, false, ◌&&◌, List, [], ◌∷◌, ◌++◌, Result, ok,
  err, struct_error, guard, ◌>>=◌, ◌>>◌, ltb, leb, ◌==◌, length, take, drop, replicate,
}

-- A number in so many little-endian bytes.
unfoldable pub word_bytes : ℕ → ℕ → List ℕ
word_bytes zero w = []
word_bytes (suc n) w = w % 256 ∷ word_bytes n (w / 256)

-- What a little-endian machine reads in the bytes.
abbrev pub word_of : List ℕ → ℕ
word_of [] = 0
word_of (b ∷ bs) = b + 256 * word_of bs

-- One code of a format: an unsigned number of so many bytes, or so many bytes of padding.
pub data Code : Type 0 where
  num : (bytes : ℕ) → Code
  pad : (bytes : ℕ) → Code

abbrev pub Format : Type 0
Format = List Code

-- `Struct.size`.
abbrev pub size_of : Format → ℕ
size_of [] = 0
size_of (num n ∷ fmt) = n + size_of fmt
size_of (pad n ∷ fmt) = n + size_of fmt

-- The values have the number and the ranges that the format asks for.
abbrev pub fits_format : Format → List ℕ → Bool
fits_format [] [] = true
fits_format [] (v ∷ vs) = false
fits_format (pad n ∷ fmt) vs = fits_format fmt vs
fits_format (num n ∷ fmt) [] = false
fits_format (num n ∷ fmt) (v ∷ vs) = ltb v (256 ^ n) && fits_format fmt vs

abbrev pub packed : Format → List ℕ → List ℕ
packed [] vs = []
packed (pad n ∷ fmt) vs = replicate n 0 ++ packed fmt vs
packed (num n ∷ fmt) [] = []
packed (num n ∷ fmt) (v ∷ vs) = word_bytes n v ++ packed fmt vs

-- `Struct.pack`.
unfoldable pub pack : Format → List ℕ → Result (List ℕ)
unfolding word_bytes
pack fmt vs = do guard (fits_format fmt vs) struct_error; ok (packed fmt vs)

abbrev pub fields_of : Format → List ℕ → List ℕ
fields_of [] bs = []
fields_of (pad n ∷ fmt) bs = fields_of fmt (drop n bs)
fields_of (num n ∷ fmt) bs = word_of (take n bs) ∷ fields_of fmt (drop n bs)

-- `Struct.unpack`, of exactly the format's size.
unfoldable pub unpack : Format → List ℕ → Result (List ℕ)
unpack fmt bs = do guard (length bs == size_of fmt) struct_error; ok (fields_of fmt bs)

-- `Struct.unpack_from` of the bytes from an offset on, of at least the format's size.
unfoldable pub unpack_from : Format → List ℕ → Result (List ℕ)
unpack_from fmt bs = do guard (leb (size_of fmt) (length bs)) struct_error; ok (fields_of fmt bs)
