-- ===== src/Sysinit/Repeated.antt =====
-- How often a command is performed whose repetition is set by `repeat`.
use Prim.Native.String.{String}
use mathlib.Core.Path.{subst}
use sel4cp.Prelude.{
  ℕ, zero, suc, ◌<◌, ◌^◌, err, out_of_fuel, true, max, ◌+◌, ◌≡◌, refl, sym, ap, ◌∙◌, Bool, some,
  List, ◌++◌, arith, ok, assertion, guard, ◌>>◌, guard-eq-ok, ok_injective, Bool-cases, inl, inr,
  ltb, length, if◌then◌else◌,
}
use sel4cp.Invocation.{
  Invocation, Command, Repeat, once, repeat, is_nonempty, all_known, field_names,
}
use sel4cp.Invocation.Encode.{raw_words}
use sel4cp.Sysinit.{add32, MessageInfo, Call, Parts, calls_from, read_parts, perform_invocation}
use sel4cp.Sysinit.Expected.{rounds_from, expected, IsRepeatable}
use sel4cp.Sysinit.Replay.{repeated_parts, read_endless, perform-raw_words}
use sel4cp.Sysinit.Replay.Standing.{At-append_behind}

length-rounds_from :
    (n i : ℕ) (inv : Invocation) (incr : List (String × ℕ)) → length (rounds_from n i inv incr) ≡ n
length-rounds_from zero i inv incr = refl
length-rounds_from (suc n) i inv incr = ap suc (length-rounds_from n (i + 1) inv incr)

-- The two outcomes of `repeat`.
repeat-cases :
    (count : ℕ) (kwargs : List (String × ℕ)) (inv : Invocation) (cmd : Command)
    → repeat count kwargs (once inv) ≡ ok cmd
    → count < 2 ^ 32
    → IsRepeatable cmd × (length (expected cmd) ≡ max 1 count)
unfolding repeat
repeat-cases count kwargs inv cmd h bounded = elim (Bool-cases (ltb 1 count)) [
  | inl many ↦
      let stored : Command = record {
        invocation = inv;
        repeated = some (record { repeat_count = count; repeat_incr = kwargs });
      } in
      let (_, h1) =
        guard-eq-ok (is_nonempty kwargs) assertion
          (guard (all_known kwargs (field_names inv)) assertion >> ok stored)
          (sym (
              ap
                (λ (b : Bool).
                  if b
                  then (do
                    guard (is_nonempty kwargs) assertion
                    guard (all_known kwargs (field_names inv)) assertion
                    ok stored)
                  else ok (once inv))
                many)
            ∙ h) in
      let (_, same) = guard-eq-ok (all_known kwargs (field_names inv)) assertion (ok stored) h1 in
      subst (λ c. IsRepeatable c × (length (expected c) ≡ max 1 count)) (ok_injective same)
        ((ground arith, bounded), length-rounds_from count 0 inv kwargs ∙ ground arith)
  | inr few ↦
      let same : once inv ≡ cmd = ok_injective (
        sym (
          ap
            (λ (b : Bool).
              if b
              then (do
                guard (is_nonempty kwargs) assertion
                guard (all_known kwargs (field_names inv)) assertion
                ok (record {
                  invocation = inv;
                  repeated = some (record { repeat_count = count; repeat_incr = kwargs });
                }))
              else ok (once inv))
            few)
        ∙ h) in
      subst (λ c. IsRepeatable c × (length (expected c) ≡ max 1 count)) same (tt, ground arith)
]

-- A command whose repetition was set with a count below 2 ** 32, that is encoded, and whose words
-- stand behind some words and in front of others and end before the 2 ** 32 words that the offset can
-- reach, makes exactly as many calls of the kernel as the count says, but one call for a count of 0.
pub perform-repeat :
    (info : MessageInfo) (count : ℕ) (kwargs : List (String × ℕ)) (inv : Invocation) (cmd : Command)
    (before ws rest : List ℕ)
    → count < 2 ^ 32
    → repeat count kwargs (once inv) ≡ ok cmd
    → raw_words cmd ≡ ok ws
    → length before + length ws < 2 ^ 32
    → (calls : List Call) × (perform_invocation info (before ++ (ws ++ rest)) (length before)
        ≡ ok (calls, length before + length ws))
      × (length calls ≡ max 1 count)
perform-repeat info count kwargs inv cmd before ws rest bounded set encoded room =
    let (repeatable, many) = repeat-cases count kwargs inv cmd set bounded in
    (expected cmd, perform-raw_words info cmd before ws rest repeatable encoded room, many)

-- With 2 ** 32 rounds the loop goes on whatever the fuel, since the counter never reaches them.
calls_from-endless :
    (p : Parts) (fuel i : ℕ)
    → p.iterations ≡ 2 ^ 32
    → i < 2 ^ 32
    → calls_from fuel i p ≡ err out_of_fuel
unfolding calls_from
calls_from-endless p zero i many low = refl
calls_from-endless p (suc fuel) i many low =
    let more : ltb i p.iterations ≡ true = ground (arith, many, low) in
    let rest = calls_from-endless p fuel (add32 i 1) many (omega arith) in
    rw (calls_from, more, rest) refl

-- A command that is repeated 2 ** 32 times and that is encoded, with its words as above, is read with
-- 2 ** 32 rounds, and the loop over them does not end within any number of rounds.
pub perform-endless :
    (info : MessageInfo) (inv : Invocation) (r : Repeat) (before ws rest : List ℕ)
    → r.repeat_count ≡ 2 ^ 32
    → raw_words (record { invocation = inv; repeated = some r }) ≡ ok ws
    → length before + length ws < 2 ^ 32
    → (p : Parts) × (next : ℕ) × (read_parts info (before ++ (ws ++ rest)) (length before)
        ≡ ok (p, next))
      × (p.iterations ≡ 2 ^ 32)
      × ((fuel : ℕ) → calls_from fuel 0 p ≡ err out_of_fuel)
perform-endless info inv r before ws rest many encoded room =
    let p = repeated_parts info inv r.repeat_count r.repeat_incr in
    (
      p,
      length before + length ws,
      read_endless info inv r (before ++ (ws ++ rest)) (length before) ws many encoded room
          (At-append_behind before ws rest),
      many,
      (λ fuel. calls_from-endless p fuel 0 many (omega arith)),
    )
