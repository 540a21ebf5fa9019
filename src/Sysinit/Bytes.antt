-- ===== src/Sysinit/Bytes.antt =====
-- The bytes that carry a table of invocations.
pub mod Words
pub mod Fit
use mathlib.Core.List.{append_assoc, append-nil}
use mathlib.Core.Path.{ap₂}
use native.Mathlib.Numerals.{unary_clauses}
use sel4cp.Prelude.{
  ℕ, zero, suc, ◌+◌, ◌*◌, ◌/◌, ◌%◌, ◌^◌, ◌<◌, ◌≡◌, refl, ap, sym, Bool, true, drop, take,
  take-append, length-append, drop-append, ◌∙◌, List, [], ◌∷◌, ◌++◌, arith, Result, ok, ◌>>=◌,
  >>=-eq-ok, ok_injective, guard-eq-ok, length, Option, none, some, bit_or, ◌-◌, All,
}
use sel4cp.Words.{word_mod}
use sel4cp.Invocation.{Command, Repeat, Invocation, label}
use sel4cp.Invocation.Labels.{label_value}
use sel4cp.Invocation.Encode.{
  raw_words, message_info_new, service, values, cap_fields, params, active, pack_once,
  pack_repeated, repeat_words, all_words, words_bytes, get_raw_invocation,
}
use sel4cp.Sysinit.{MessageInfo, Call, perform_invocation, perform_all}
use sel4cp.Sysinit.Replay.{perform-raw_words}
use sel4cp.Sysinit.Expected.{expected, IsRepeatable}
use sel4cp.Sysinit.Program.{table_words, all_expected, perform_all-table_words}
use sel4cp.Bytes.{word_bytes}
use sel4cp.Bytes.Laws.{length-word_bytes}
use sel4cp.Sysinit.Bytes.Words.{words_of, words_of-words_bytes}
use sel4cp.Sysinit.Bytes.Fit.{all_words-join, raw_words-all_words}

-- The bytes of a table, as the tool joins them.
abbrev pub table_bytes : List Command → Result (List ℕ)
table_bytes [] = ok []
table_bytes (cmd ∷ cmds) = do
  bytes ← get_raw_invocation cmd
  more ← table_bytes cmds
  ok (bytes ++ more)

length-words_bytes : (ws : List ℕ) → length (words_bytes ws) ≡ 8 * length ws
unfolding words_bytes
length-words_bytes [] = refl
length-words_bytes (w ∷ ws) = omega (
  arith,
  length-append (word_bytes 8 w) (words_bytes ws),
  length-word_bytes 8 w,
  length-words_bytes ws,
)

words_bytes-append : (ws vs : List ℕ) → words_bytes (ws ++ vs) ≡ words_bytes ws ++ words_bytes vs
unfolding words_bytes
words_bytes-append [] vs = refl
words_bytes-append (w ∷ ws) vs =
    ap (λ t. word_bytes 8 w ++ t) (words_bytes-append ws vs)
    ∙ sym (append_assoc (word_bytes 8 w) (words_bytes ws) (words_bytes vs))

-- A table of bytes is the bytes of a table of words.
table_bytes-table_words :
    (cmds : List Command) (bs : List ℕ)
    → table_bytes cmds ≡ ok bs
    → (ws : List ℕ) × (table_words cmds ≡ ok ws) × (all_words ws ≡ true) × (bs ≡ words_bytes ws)
unfolding words_bytes get_raw_invocation
table_bytes-table_words [] bs h = ([], refl, refl, sym (ok_injective h))
table_bytes-table_words (cmd ∷ cmds) bs h =
    let (first, made, h2) = >>=-eq-ok (get_raw_invocation cmd) _ h in
    let (words, encoded, same_first) = >>=-eq-ok (raw_words cmd) _ made in
    let (more, tabled, same) = >>=-eq-ok (table_bytes cmds) _ h2 in
    let (rest, rest_made, rest_fit, rest_same) = table_bytes-table_words cmds more tabled in
    let joined : table_words (cmd ∷ cmds) ≡ ok (words ++ rest) = rw (encoded, rest_made) refl in
    (
      words ++ rest,
      joined,
      all_words-join words rest (raw_words-all_words cmd words encoded) rest_fit,
      sym (ok_injective same)
          ∙ ap₂ (λ s t. s ++ t) (sym (ok_injective same_first)) rest_same
          ∙ sym (words_bytes-append words rest),
    )

-- The bytes of a table are whole words, and the initial task, reading them as little-endian 64-bit
-- words, makes all the calls of all the commands in their order and stops at the end of the table.
-- The table has less than 2 ** 32 words, and each command is not repeated or 2 to 2 ** 32 - 1 times.
pub perform_all-table_bytes :
    (info : MessageInfo) (cmds : List Command) (bs : List ℕ)
    → All IsRepeatable cmds
    → table_bytes cmds ≡ ok bs
    → length bs < 8 * 2 ^ 32
    → (length bs % 8 ≡ 0)
      × (perform_all info (length cmds) (words_of (length bs / 8) bs) 0
          ≡ ok (all_expected cmds, length bs / 8))
perform_all-table_bytes info cmds bs two h room =
    let (ws, made, fit, same) = table_bytes-table_words cmds bs h in
    let size : length bs ≡ 8 * length ws = ap length same ∙ length-words_bytes ws in
    let words : length bs / 8 ≡ length ws = omega arith in
    (
      omega arith,
      ap₂ (λ n t. perform_all info (length cmds) (words_of n t) 0) words same
          ∙ ap (λ t. perform_all info (length cmds) t 0) (words_of-words_bytes ws fit)
          ∙ perform_all-table_words info cmds ws two made (omega (arith, room, size))
          ∙ ap {B = Result (List Call × ℕ)} (λ t. ok (all_expected cmds, t)) (sym words),
    )
