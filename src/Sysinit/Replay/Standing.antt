-- ===== src/Sysinit/Replay/Standing.antt =====
-- Words that stand at an offset of the table, and that are read there.
use sel4cp.Prelude.{
  ℕ, suc, ◌+◌, ◌%◌, ◌^◌, ◌<◌, ◌≡◌, refl, subst, some, List, [], ◌∷◌, ◌++◌, arith, ok, length,
  get_elem?,
}
use sel4cp.Sysinit.{invocation_word, invocation_words}

abbrev pub At : List ℕ → ℕ → List ℕ → Type 0
At table start [] = Unit
At table start (w ∷ ws) = (get_elem? table start ≡ some w) × At table (suc start) ws

At-suc :
    (x : ℕ) (table : List ℕ) (start : ℕ) (ws : List ℕ)
    → At table start ws
    → At (x ∷ table) (suc start) ws
At-suc x table start [] h = tt
At-suc x table start (w ∷ ws) h = (h.0, At-suc x table (suc start) ws h.1)

At-append_front : (ws rest : List ℕ) → At (ws ++ rest) 0 ws
At-append_front [] rest = tt
At-append_front (w ∷ ws) rest = (refl, At-suc w (ws ++ rest) 0 ws (At-append_front ws rest))

pub At-append_behind : (before ws rest : List ℕ) → At (before ++ (ws ++ rest)) (length before) ws
At-append_behind [] ws rest = At-append_front ws rest
At-append_behind (x ∷ before) ws rest =
    At-suc x (before ++ (ws ++ rest)) (length before) ws (At-append_behind before ws rest)

pub At-append :
    (table : List ℕ) (start : ℕ) (xs ys : List ℕ)
    → At table start (xs ++ ys)
    → At table start xs × At table (start + length xs) ys
At-append table start [] ys h =
    let e : start ≡ start + 0 = omega arith in (tt, subst (λ t. At table t ys) e h)
At-append table start (x ∷ xs) ys h =
    let (first, second) = At-append table (suc start) xs ys h.1 in
    let e : suc start + length xs ≡ start + length (x ∷ xs) = omega arith in
    ((h.0, first), subst (λ t. At table t ys) e second)

pub invocation_word-At :
    (table : List ℕ) (start w : ℕ)
    → start < 2 ^ 32
    → get_elem? table start ≡ some w
    → invocation_word table start ≡ ok w
unfolding invocation_word
invocation_word-At table start w small h =
    let low : start % 2 ^ 32 ≡ start = omega arith in rw (invocation_word, low, h) refl

pub invocation_words-At :
    (table : List ℕ) (start : ℕ) (ws : List ℕ)
    → start + length ws < 2 ^ 32
    → At table start ws
    → invocation_words table start (length ws) ≡ ok ws
unfolding invocation_words
invocation_words-At table start [] small h = refl
invocation_words-At table start (w ∷ ws) small h =
    rw
      (
        invocation_word-At table start w (omega (arith, small)) h.0,
        invocation_words-At table (suc start) ws (omega (arith, small)) h.1,
      )
      refl
