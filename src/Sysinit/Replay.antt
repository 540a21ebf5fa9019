-- ===== src/Sysinit/Replay.antt =====
-- The initial task makes exactly the calls that the tool's commands stand for.
pub mod Standing
pub mod Read
pub mod Rounds
pub mod Encoded
use mathlib.Core.List.{append_assoc}
use mathlib.Core.Path.{ap₂, subst}
use text.Mathlib.Text.{◌==◌ as str_eq}
use Prim.Native.String.{String}
use sel4cp.Prelude.{
  ℕ, zero, suc, ◌+◌, ◌-◌, ◌*◌, ◌/◌, ◌%◌, ◌^◌, ◌<◌, ◌≤◌, ◌≡◌, refl, sym, ap, ◌∙◌, bit_or, Bool, true,
  false, List, [], ◌∷◌, ◌++◌, map, Option, none, some, arith, Result, ok, ◌>>=◌, ◌>>◌, guard,
  struct_error, >>=-eq-ok, guard-eq-ok, ok_injective, Bool-cases, inl, inr, ltb, ◌==◌, ==_iff,
  length-append, length, length-map, take, drop, take-append, drop-append, if◌then◌else◌,
}
use sel4cp.Bits.{bit_or-disjoint, bit_or_comm}
use sel4cp.Words.{word_mod}
use sel4cp.Invocation.{
  fields, extra_caps, tcb_write_registers, tcb_resume, Invocation, Command, Repeat, label,
}
use sel4cp.Invocation.Registers.{count, as_tuple}
use sel4cp.Invocation.Labels.{Label, label_value}
use sel4cp.Invocation.Encode.{
  message_info_new, all_words, increment, values, service, cap_fields, val_fields, params,
  increments, repeat_words, pack_once, pack_repeated, raw_words,
}
use sel4cp.Sysinit.{
  add32, MessageInfo, Call, Parts, stepped, stepped_all, call_at, calls_from, read_parts,
  perform_invocation, perform_all,
}
use sel4cp.Sysinit.Expected.{
  tag_of, field_at, expected_tag, round_at, rounds_from, expected, IsRepeatable,
}
use sel4cp.Sysinit.Replay.Standing.{At, At-append_behind}
use sel4cp.Sysinit.Replay.Read.{message_info_new_lem, read_once, read_repeated}
use sel4cp.Sysinit.Replay.Encoded.{
  caps, cap_incrs, val_incrs, command_word, encoded, unpack, sizes, length_encoded,
}
use sel4cp.Sysinit.Replay.Rounds.{
  label_value-lt, stepped_lem, stepped_all_lem, stepped_all_once, all_words-append,
  params-val_fields, first_two,
}

perform_of_parts :
    (info : MessageInfo) (table : List ℕ) (offset next : ℕ) (p : Parts) (calls : List Call)
    → read_parts info table offset ≡ ok (p, next)
    → info.caps_unwrapped p.tag ≡ 0
    → calls_from (suc p.iterations) 0 p ≡ ok calls
    → perform_invocation info table offset ≡ ok (calls, next)
unfolding perform_invocation
perform_of_parts info table offset next p calls h u c = rw (h, u, c) refl

module _ (info : MessageInfo) (inv : Invocation) where
  calls_once :
      (caps vals : List ℕ) (tag svc : ℕ)
      → calls_from 2 0 (record {
        tag = tag;
        iterations = 1;
        service = svc;
        caps = caps;
        mrs = vals;
        service_incr = 0;
        cap_incrs = [];
        mr_incrs = [];
      })
        ≡ ok (record { tag = tag; service = svc; caps = caps; mrs = vals } ∷ [])
  unfolding calls_from
  calls_once caps vals tag svc = rw (stepped_all_once caps, stepped_all_once vals) refl

  -- The parts that are read from a repeated invocation.
  abbrev pub repeated_parts : ℕ → List (String × ℕ) → Parts
  repeated_parts n incr = record {
    tag = expected_tag inv;
    iterations = n;
    service = (service inv).1;
    caps = values (cap_fields inv);
    mrs = values (val_fields inv);
    service_incr = increment incr (service inv).0;
    cap_incrs = increments incr (cap_fields inv);
    mr_incrs = increments incr (val_fields inv);
  }

  -- The counter does not wrap below 2 ** 32 rounds.
  calls_repeated :
      (m n i : ℕ) (incr : List (String × ℕ))
      → i + n ≡ m
      → m < 2 ^ 32
      → (service inv).1 < word_mod
      → all_words (values (cap_fields inv)) ≡ true
      → all_words (values (val_fields inv)) ≡ true
      → calls_from (suc n) i (repeated_parts m incr) ≡ ok (rounds_from n i inv incr)
  unfolding calls_from
  calls_repeated m zero i incr sum few hs hc hv =
      let last : ltb i m ≡ false = ground (arith, sum) in rw (last, calls_from) refl
  calls_repeated m (suc n) i incr sum few hs hc hv =
      let more : ltb i m ≡ true = ground (arith, sum) in
      let next : add32 i 1 ≡ i + 1 = omega (arith, sum, few) in
      rw
        (
          more,
          next,
          stepped_lem i (service inv).1 (increment incr (service inv).0) hs,
          stepped_all_lem incr i (cap_fields inv) hc,
          stepped_all_lem incr i (val_fields inv) hv,
          calls_repeated m n (i + 1) incr (omega (arith, sum)) few hs hc hv,
        )
        refl

  replay_once :
      (table : List ℕ) (offset : ℕ) (ws : List ℕ)
      → raw_words (record { invocation = inv; repeated = none }) ≡ ok ws
      → offset + length ws < 2 ^ 32
      → At table offset ws
      → perform_invocation info table offset
        ≡ ok (expected (record { invocation = inv; repeated = none }), offset + length ws)
  unfolding raw_words
  replay_once table offset ws h room at =
      let (tag, made, packed) =
        >>=-eq-ok
          (message_info_new (label_value (label inv)) 0 (length (caps inv)) (length (params inv)))
          (pack_once inv (caps inv) (params inv)) h in
      let (_, same) =
        guard-eq-ok (all_words (tag ∷ (service inv).1 ∷ (caps inv) ++ params inv)) _ _ packed in
      let (word, few, short) =
        message_info_new_lem _ (length (caps inv)) (length (params inv)) tag made in
      let l = label_value (label inv) in
      let small = label_value-lt (label inv) in
      let unwrapped =
        (info.layout l 0 (length (caps inv)) (length (params inv)) (omega arith) few short).0 in
      let whole : tag_of l (length (caps inv)) (length (params inv))
            ∷ (service inv).1
            ∷ ((caps inv) ++ params inv)
          ≡ ws =
        ap (λ t. t ∷ (service inv).1 ∷ ((caps inv) ++ params inv)) (sym word) ∙ ok_injective same in
      let many : length ws ≡ 2 + (length (caps inv) + length (params inv)) =
        ap length (sym whole)
        ∙ ap (λ n. suc (suc n)) (length-append (caps inv) (params inv))
        ∙ omega arith in
      let next : offset + 2 + length (caps inv) + length (params inv) ≡ offset + length ws =
        omega (arith, many) in
      perform_of_parts info table offset _ _ _
        (read_once info l small (caps inv) (params inv) few short table offset (service inv).1
          (omega (arith, room, next)) (subst (At table offset) (sym whole) at))
        unwrapped
        (calls_once (caps inv) (params inv) (tag_of l (length (caps inv)) (length (params inv)))
          (service inv).1)
      ∙ ap {B = Result (List Call × ℕ)}
          (λ n. ok (expected (record { invocation = inv; repeated = none }), n)) next

  module _ (r : Repeat) where
    read_encoded :
        (table : List ℕ) (offset tag : ℕ)
        → 2 ≤ r.repeat_count
        → message_info_new (label_value (label inv)) 0 (length (caps inv)) (length (params inv))
          ≡ ok tag
        → length ((cap_incrs inv r) ++ (val_incrs inv r)) ≡ length (caps inv) + length (params inv)
        → offset + length (encoded inv r tag) < 2 ^ 32
        → At table offset (encoded inv r tag)
        → read_parts info table offset
          ≡ ok (repeated_parts r.repeat_count r.repeat_incr, offset + length (encoded inv r tag))
    read_encoded table offset tag two made sized room at =
        let l = label_value (label inv) in
        let n = r.repeat_count - 1 in
        let small = label_value-lt (label inv) in
        let (word, few, short) =
          message_info_new_lem l (length (caps inv)) (length (params inv)) tag made in
        let (as_caps, as_vals, plain) = sizes inv r sized in
        let joined : command_word inv r tag
            ≡ tag_of l (length (caps inv)) (length (params inv)) + n * 2 ^ 32 =
          bit_or_comm tag (n * 2 ^ 32) ∙ bit_or-disjoint 32 n tag (omega arith) ∙ omega arith in
        let rounds : n + 1 ≡ r.repeat_count = omega arith in
        let next : offset + 3 + 2 * (length (caps inv) + length (params inv))
            ≡ offset + length (encoded inv r tag) =
          omega (arith, length_encoded inv r tag sized) in
        read_repeated info l small (caps inv) (params inv) few short table offset n (service inv).1
          (increment r.repeat_incr (service inv).0) (cap_incrs inv r) (val_incrs inv r)
          (omega arith) as_caps as_vals (omega (arith, room, next))
          (subst (At table offset)
            (ap₂ (λ t ts. t ∷ (service inv).1 ∷ ts) joined (append_assoc (caps inv) (params inv) _))
            at)
        ∙ ap {B = Result (Parts × ℕ)}
            (λ t. ok (record (repeated_parts (n + 1) r.repeat_incr) { mrs = params inv }, t)) next
        ∙ ap {B = Result (Parts × ℕ)}
            (λ t. ok (
              record (repeated_parts (n + 1) r.repeat_incr) { mrs = t },
              offset + length (encoded inv r tag),
            ))
            plain
        ∙ ap {B = Result (Parts × ℕ)}
            (λ t. ok (repeated_parts t r.repeat_incr, offset + length (encoded inv r tag))) rounds

    replay_encoded :
        (table : List ℕ) (offset tag : ℕ)
        → 2 ≤ r.repeat_count
        → r.repeat_count < 2 ^ 32
        → message_info_new (label_value (label inv)) 0 (length (caps inv)) (length (params inv))
          ≡ ok tag
        → all_words (command_word inv r tag ∷ (service inv).1 ∷ (caps inv) ++ params inv) ≡ true
        → length ((cap_incrs inv r) ++ (val_incrs inv r)) ≡ length (caps inv) + length (params inv)
        → offset + length (encoded inv r tag) < 2 ^ 32
        → At table offset (encoded inv r tag)
        → perform_invocation info table offset
          ≡ ok (rounds_from r.repeat_count 0 inv r.repeat_incr, offset + length (encoded inv r tag))
    replay_encoded table offset tag two bounded made fit sized room at =
        let l = label_value (label inv) in
        let (_, few, short) =
          message_info_new_lem l (length (caps inv)) (length (params inv)) tag made in
        let (_, _, plain) = sizes inv r sized in
        let unwrapped =
          (info.layout l 0 (length (caps inv)) (length (params inv)) (omega arith) few short).0 in
        let (service_small, words_small) =
          first_two (command_word inv r tag) (service inv).1 ((caps inv) ++ params inv) fit in
        let (caps_small, vals_small) = all_words-append (caps inv) (params inv) words_small in
        perform_of_parts info table offset _ _ _
          (read_encoded table offset tag two made sized room at) unwrapped
          (calls_repeated r.repeat_count r.repeat_count 0 r.repeat_incr (omega arith) bounded
            service_small caps_small (sym (ap all_words plain) ∙ vals_small))

  replay_repeated :
      (r : Repeat) (table : List ℕ) (offset : ℕ) (ws : List ℕ)
      → 2 ≤ r.repeat_count
      → r.repeat_count < 2 ^ 32
      → raw_words (record { invocation = inv; repeated = some r }) ≡ ok ws
      → offset + length ws < 2 ^ 32
      → At table offset ws
      → perform_invocation info table offset
        ≡ ok (expected (record { invocation = inv; repeated = some r }), offset + length ws)
  replay_repeated r table offset ws two bounded h room at =
      let live : (r.repeat_count == 0) ≡ false = ground arith in
      let (tag, made, fit, sized, whole) = unpack inv r ws live h in
      replay_encoded r table offset tag two bounded made fit sized
        (subst (λ t. offset + length t < 2 ^ 32) (sym whole) room)
        (subst (At table offset) (sym whole) at)
      ∙ ap {B = Result (List Call × ℕ)}
          (λ t. ok (rounds_from r.repeat_count 0 inv r.repeat_incr, offset + length t)) whole

  -- As many rounds as the counter has values are read as they stand.
  pub read_endless :
      (r : Repeat) (table : List ℕ) (offset : ℕ) (ws : List ℕ)
      → r.repeat_count ≡ 2 ^ 32
      → raw_words (record { invocation = inv; repeated = some r }) ≡ ok ws
      → offset + length ws < 2 ^ 32
      → At table offset ws
      → read_parts info table offset
        ≡ ok (repeated_parts r.repeat_count r.repeat_incr, offset + length ws)
  read_endless r table offset ws many h room at =
      let live : (r.repeat_count == 0) ≡ false = ground (arith, many) in
      let (tag, made, fit, sized, whole) = unpack inv r ws live h in
      read_encoded r table offset tag (omega (arith, many)) made sized
        (subst (λ t. offset + length t < 2 ^ 32) (sym whole) room)
        (subst (At table offset) (sym whole) at)
      ∙ ap {B = Result (Parts × ℕ)}
          (λ t. ok (repeated_parts r.repeat_count r.repeat_incr, offset + length t)) whole

pub perform-At :
    (info : MessageInfo) (cmd : Command) (table : List ℕ) (offset : ℕ) (ws : List ℕ)
    → IsRepeatable cmd
    → raw_words cmd ≡ ok ws
    → offset + length ws < 2 ^ 32
    → At table offset ws
    → perform_invocation info table offset ≡ ok (expected cmd, offset + length ws)
perform-At info cmd table offset ws two h room at = by_repeat cmd.repeated two h
  where
    by_repeat :
        (o : Option Repeat)
        → IsRepeatable (record { invocation = cmd.invocation; repeated = o })
        → raw_words (record { invocation = cmd.invocation; repeated = o }) ≡ ok ws
        → perform_invocation info table offset
          ≡ ok (expected (record { invocation = cmd.invocation; repeated = o }), offset + length ws)
    by_repeat none two h = replay_once info cmd.invocation table offset ws h room at
    by_repeat (some r) two h =
        replay_repeated info cmd.invocation r table offset ws two.0 two.1 h room at

-- Where the words of a command stand behind some words and in front of others, end before the 2 ** 32
-- words that the offset can reach, and the command is not repeated or 2 to 2 ** 32 - 1 times: the
-- initial task makes exactly the calls that the command stands for, in order, and goes on at the
-- words that follow. Round `i` of a repeated command has each field raised by `i` times its
-- increment, modulo 2 ** 64.
pub perform-raw_words :
    (info : MessageInfo) (cmd : Command) (before ws rest : List ℕ)
    → IsRepeatable cmd
    → raw_words cmd ≡ ok ws
    → length before + length ws < 2 ^ 32
    → perform_invocation info (before ++ (ws ++ rest)) (length before)
      ≡ ok (expected cmd, length before + length ws)
perform-raw_words info cmd before ws rest two h room =
    perform-At info cmd (before ++ (ws ++ rest)) (length before) ws two h room
      (At-append_behind before ws rest)
