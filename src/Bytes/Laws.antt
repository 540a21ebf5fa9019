-- ===== src/Bytes/Laws.antt =====
-- What is packed is read back.
use mathlib.Core.List.{append_assoc, append-nil}
use mathlib.Core.Path.{ap₂}
use native.Mathlib.Numerals.{unary_clauses}
use sel4cp.Prelude.{
  ℕ, zero, suc, ◌*◌, ◌/◌, ◌^◌, ◌<◌, ◌≡◌, refl, sym, ap, ◌∙◌, true, List, [], ◌∷◌, ◌++◌, arith, ok,
  struct_error, leb, ◌==◌, guard-eq-ok, ok_injective, length, take, drop, replicate, take-append,
  drop-append, length-append,
}
use sel4cp.Bytes.{
  word_bytes, word_of, num, pad, Format, size_of, fits_format, packed, pack, fields_of, unpack,
  unpack_from,
}

split_word : (p w : ℕ) → w < p * 256 → w / 256 < p
split_word p w h = omega arith

pub word_of-word_bytes : (n w : ℕ) → w < 256 ^ n → word_of (word_bytes n w) ≡ w
unfolding word_bytes
word_of-word_bytes zero w h = omega arith
word_of-word_bytes (suc n) w h =
    let rest = word_of-word_bytes n (w / 256) (split_word (256 ^ n) w (simp unary_clauses at h)) in
    omega (arith, rest)

pub length-word_bytes : (n w : ℕ) → length (word_bytes n w) ≡ n
unfolding word_bytes
length-word_bytes zero w = refl
length-word_bytes (suc n) w = ap suc (length-word_bytes n (w / 256))

pub length-replicate : (n : ℕ) (b : ℕ) → length (replicate n b) ≡ n
length-replicate zero b = refl
length-replicate (suc n) b = ap suc (length-replicate n b)

-- A prefix of known length, taken and dropped.
pub take_prefix : (n : ℕ) (xs ys : List ℕ) → length xs ≡ n → take n (xs ++ ys) ≡ xs
take_prefix n xs ys h = ap (λ t. take t (xs ++ ys)) (sym h) ∙ take-append xs ys

pub drop_prefix : (n : ℕ) (xs ys : List ℕ) → length xs ≡ n → drop n (xs ++ ys) ≡ ys
drop_prefix n xs ys h = ap (λ t. drop t (xs ++ ys)) (sym h) ∙ drop-append xs ys

pub fields_of-packed :
    (fmt : Format) (vs rest : List ℕ)
    → fits_format fmt vs ≡ true
    → (fields_of fmt (packed fmt vs ++ rest) ≡ vs) × (length (packed fmt vs) ≡ size_of fmt)
fields_of-packed [] [] rest h = (refl, refl)
fields_of-packed [] (v ∷ vs) rest h = cc
fields_of-packed (pad n ∷ fmt) vs rest h =
    let (same, sized) = fields_of-packed fmt vs rest h in
    (
      ap (λ t. fields_of fmt (drop n t)) (append_assoc (replicate n 0) (packed fmt vs) rest)
          ∙ ap (fields_of fmt)
              (drop_prefix n (replicate n 0) (packed fmt vs ++ rest) (length-replicate n 0))
          ∙ same,
      omega (arith, sized, length-append (replicate n 0) (packed fmt vs), length-replicate n 0),
    )
fields_of-packed (num n ∷ fmt) [] rest h = cc
fields_of-packed (num n ∷ fmt) (v ∷ vs) rest h =
    let (same, sized) = fields_of-packed fmt vs rest (ground arith) in
    let assoc = append_assoc (word_bytes n v) (packed fmt vs) rest in
    (
      ap₂ (λ t ts. t ∷ ts)
          (ap (λ t. word_of (take n t)) assoc
            ∙ ap word_of
                (take_prefix n (word_bytes n v) (packed fmt vs ++ rest) (length-word_bytes n v))
            ∙ word_of-word_bytes n v (ground arith))
          (ap (λ t. fields_of fmt (drop n t)) assoc
            ∙ ap (fields_of fmt)
                (drop_prefix n (word_bytes n v) (packed fmt vs ++ rest) (length-word_bytes n v))
            ∙ same),
      omega (arith, sized, length-append (word_bytes n v) (packed fmt vs), length-word_bytes n v),
    )

-- Values that are packed are read back from the front of the bytes.
pub unpack_from-pack :
    (fmt : Format) (vs bs rest : List ℕ)
    → pack fmt vs ≡ ok bs
    → unpack_from fmt (bs ++ rest) ≡ ok vs
unfolding pack unpack_from
unpack_from-pack fmt vs bs rest h =
    let (fit, made) = guard-eq-ok (fits_format fmt vs) struct_error (ok (packed fmt vs)) h in
    let (same, sized) = fields_of-packed fmt vs rest fit in
    let whole : leb (size_of fmt) (length (packed fmt vs ++ rest)) ≡ true =
      ground (arith, length-append (packed fmt vs) rest) in
    ap (λ t. unpack_from fmt (t ++ rest)) (sym (ok_injective made))
    ∙ rw (whole, unpack_from, same) refl

pub unpack-pack : (fmt : Format) (vs bs : List ℕ) → pack fmt vs ≡ ok bs → unpack fmt bs ≡ ok vs
unfolding pack unpack
unpack-pack fmt vs bs h =
    let (fit, made) = guard-eq-ok (fits_format fmt vs) struct_error (ok (packed fmt vs)) h in
    let (same, sized) = fields_of-packed fmt vs [] fit in
    let exact : (length (packed fmt vs) == size_of fmt) ≡ true = ground arith in
    ap (unpack fmt) (sym (ok_injective made))
    ∙ rw (exact, unpack) (ap ok (ap (fields_of fmt) (sym (append-nil (packed fmt vs))) ∙ same))

pub length-pack : (fmt : Format) (vs bs : List ℕ) → pack fmt vs ≡ ok bs → length bs ≡ size_of fmt
unfolding pack
length-pack fmt vs bs h =
    let (fit, made) = guard-eq-ok (fits_format fmt vs) struct_error (ok (packed fmt vs)) h in
    ap length (sym (ok_injective made)) ∙ (fields_of-packed fmt vs [] fit).1
