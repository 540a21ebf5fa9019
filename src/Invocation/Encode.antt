-- ===== src/Invocation/Encode.antt =====
-- The words and bytes of an invocation (`Sel4Invocation` of tool/sel4coreplat/sel4.py).
use text.Mathlib.Text.{◌==◌ as str_eq}
use Prim.Native.String.{String}
use sel4cp.Prelude.{
  ℕ, ◌+◌, ◌-◌, ◌*◌, ◌^◌, bit_or, Bool, true, false, not, List, [], ◌∷◌, ◌++◌, map, Option, none,
  some, if◌then◌else◌, Result, ok, assertion, struct_error, guard, ◌>>=◌, ◌>>◌, ltb, ◌==◌, length,
}
use sel4cp.Bytes.{word_bytes}
use sel4cp.Words.{word_mod}
use sel4cp.Invocation.{
  Invocation, tcb_write_registers, Command, Repeat, label, fields, extra_caps, contains,
}
use sel4cp.Invocation.Labels.{label_value}
use sel4cp.Invocation.Registers.{as_tuple, count}

unfoldable pub message_info_new : ℕ → ℕ → ℕ → ℕ → Result ℕ
message_info_new label caps extra_caps length = do
  guard (ltb label (2 ^ 50)) assertion
  guard (ltb caps 8) assertion
  guard (ltb extra_caps 4) assertion
  guard (ltb length 0x80) assertion
  ok (bit_or (bit_or (bit_or (label * 2 ^ 12) (caps * 2 ^ 9)) (extra_caps * 2 ^ 7)) length)

-- What `struct.pack` asks of the values for the format `Q`.
abbrev pub all_words : List ℕ → Bool
all_words [] = true
all_words (w ∷ ws) = if ltb w word_mod then all_words ws else false

-- `repeat_incr.get(name, 0)`.
abbrev pub increment : List (String × ℕ) → String → ℕ
increment [] nm = 0
increment ((k, v) ∷ incr) nm = if str_eq k nm then v else increment incr nm

-- `_args` split by `nm in self._extra_caps`, which keeps the order: the part where the test has the
-- given outcome.
abbrev pub select : Bool → List String → List (String × ℕ) → List (String × ℕ)
select want caps [] = []
select want caps ((nm, v) ∷ args) =
    if same want (contains nm caps) then (nm, v) ∷ select want caps args else select want caps args
  where
    same : Bool → Bool → Bool
    same true b = b
    same false b = not b

abbrev pub values : List (String × ℕ) → List ℕ
values = map (λ f. f.1)

-- `_args`: the fields after the first.
abbrev pub args : Invocation → List (String × ℕ)
args inv = elim (fields inv) [ [] ↦ [] | f ∷ fs ↦ fs ]

-- `_service`, with its name.
abbrev pub service : Invocation → String × ℕ
service inv = elim (fields inv) [ [] ↦ ("", 0) | f ∷ fs ↦ f ]

abbrev pub cap_fields : Invocation → List (String × ℕ)
cap_fields inv = select true (extra_caps inv) (args inv)

abbrev pub val_fields : Invocation → List (String × ℕ)
val_fields inv = select false (extra_caps inv) (args inv)

-- The message words: the fields that are no capabilities, but for the registers' own layout.
abbrev pub params : Invocation → List ℕ
params (tcb_write_registers tcb resume arch_flags regs) =
    (if resume then bit_or (arch_flags * 2 ^ 8) 1 else 0) ∷ count regs ∷ as_tuple regs
params inv = values (val_fields inv)

abbrev pub increments : List (String × ℕ) → List (String × ℕ) → List ℕ
increments incr = map (λ f. increment incr f.0)

-- The words behind a repeated invocation: an increment for each word of it. `struct.pack` refuses
-- fewer or more values than the format has places.
abbrev pub repeat_words : List (String × ℕ) → Invocation → ℕ → Result (List ℕ)
repeat_words incr inv places =
    let caps = increments incr (cap_fields inv) in
    let vals = increments incr (val_fields inv) in
    (do
      guard (length (caps ++ vals) == places) struct_error
      ok (increment incr (service inv).0 ∷ caps ++ vals))

-- `if repeat_count:`.
abbrev pub active : Option Repeat → Option Repeat
active none = none
active (some r) = if r.repeat_count == 0 then none else some r

-- The words of an invocation that is not repeated, from its tag on.
abbrev pub pack_once : Invocation → List ℕ → List ℕ → ℕ → Result (List ℕ)
pack_once inv caps vals tag = do
  let words = tag ∷ (service inv).1 ∷ caps ++ vals
  guard (all_words words) struct_error
  ok words

-- The words of a repeated one: the tag holds the further rounds in its upper half.
abbrev pub pack_repeated : Invocation → List ℕ → List ℕ → Repeat → ℕ → Result (List ℕ)
pack_repeated inv caps vals r tag = do
  base ← pack_once inv caps vals (bit_or tag ((r.repeat_count - 1) * 2 ^ 32))
  extra ← repeat_words r.repeat_incr inv (length caps + length vals)
  guard (all_words extra) struct_error
  ok (base ++ extra)

-- `_generic_invocation`, as 64-bit words.
unfoldable pub generic_invocation : Command → List ℕ → List ℕ → Result (List ℕ)
generic_invocation cmd caps vals = do
  tag ← message_info_new (label_value (label cmd.invocation)) 0 (length caps) (length vals)
  elim (active cmd.repeated) [
    | none ↦ pack_once cmd.invocation caps vals tag
    | some r ↦ pack_repeated cmd.invocation caps vals r tag
  ]

-- `_get_raw_invocation`, as words.
unfoldable pub raw_words : Command → Result (List ℕ)
unfolding generic_invocation
raw_words cmd = generic_invocation cmd (values (cap_fields cmd.invocation)) (params cmd.invocation)

-- The words in little-endian bytes.
unfoldable pub words_bytes : List ℕ → List ℕ
unfolding word_bytes
words_bytes [] = []
words_bytes (w ∷ ws) = word_bytes 8 w ++ words_bytes ws

-- `_get_raw_invocation`: the bytes that `struct.pack` makes of the words.
unfoldable pub get_raw_invocation : Command → Result (List ℕ)
unfolding raw_words words_bytes
get_raw_invocation cmd = do words ← raw_words cmd; ok (words_bytes words)
