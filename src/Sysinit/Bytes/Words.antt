-- ===== src/Sysinit/Bytes/Words.antt =====
-- The bytes of 64-bit words, and the words of these bytes.
use mathlib.Core.Path.{ap₂}
use sel4cp.Prelude.{
  ℕ, zero, suc, ◌≡◌, refl, ap, sym, true, drop, take, take-append, drop-append, ◌∙◌, List, [], ◌∷◌,
  ◌++◌, arith, length,
}
use sel4cp.Invocation.Encode.{all_words, words_bytes}
use sel4cp.Bytes.{word_bytes, word_of}
use sel4cp.Bytes.Laws.{word_of-word_bytes, length-word_bytes}

-- The words that a little-endian machine reads in a run of bytes, the given number of them.
abbrev pub words_of : ℕ → List ℕ → List ℕ
words_of zero bs = []
words_of (suc n) bs = word_of (take 8 bs) ∷ words_of n (drop 8 bs)

eight :
    (w : ℕ) (bs : List ℕ)
    → (take 8 (word_bytes 8 w ++ bs) ≡ word_bytes 8 w) × (drop 8 (word_bytes 8 w ++ bs) ≡ bs)
eight w bs = (
  ap (λ t. take t (word_bytes 8 w ++ bs)) (sym (length-word_bytes 8 w))
      ∙ take-append (word_bytes 8 w) bs,
  ap (λ t. drop t (word_bytes 8 w ++ bs)) (sym (length-word_bytes 8 w))
      ∙ drop-append (word_bytes 8 w) bs,
)

pub words_of-words_bytes :
    (ws : List ℕ) → all_words ws ≡ true → words_of (length ws) (words_bytes ws) ≡ ws
unfolding words_bytes
words_of-words_bytes [] h = refl
words_of-words_bytes (w ∷ ws) h =
    let (low, high) = eight w (words_bytes ws) in
    ap₂ (λ t ts. t ∷ ts) (ap word_of low ∙ word_of-word_bytes 8 w (ground arith))
      (ap (words_of (length ws)) high ∙ words_of-words_bytes ws (ground arith))
