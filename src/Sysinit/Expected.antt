-- ===== src/Sysinit/Expected.antt =====
-- The calls that a command of the tool stands for, told from its fields.
use Prim.Native.String.{String}
use sel4cp.Prelude.{
  ℕ, zero, suc, ◌+◌, ◌*◌, ◌%◌, ◌^◌, ◌≤◌, ◌<◌, List, [], ◌∷◌, map, none, some, length,
}
use sel4cp.Words.{word_mod}
use sel4cp.Invocation.{Invocation, Command, label}
use sel4cp.Invocation.Labels.{label_value}
use sel4cp.Invocation.Encode.{increment, values, service, cap_fields, val_fields, params}
use sel4cp.Sysinit.{Call}

abbrev pub tag_of : ℕ → ℕ → ℕ → ℕ
tag_of l extra len = l * 2 ^ 12 + 0 * 2 ^ 9 + extra * 2 ^ 7 + len

-- What a command stands for, from its fields: round `i` adds `i` times its increment to each.
abbrev pub field_at : List (String × ℕ) → ℕ → String × ℕ → ℕ
field_at incr i (nm, v) = (v + increment incr nm * i) % word_mod

abbrev pub expected_tag : Invocation → ℕ
expected_tag inv =
    tag_of (label_value (label inv)) (length (values (cap_fields inv))) (length (params inv))

abbrev pub round_at : Invocation → List (String × ℕ) → ℕ → Call
round_at inv incr i = record {
  tag = expected_tag inv;
  service = field_at incr i (service inv);
  caps = map (field_at incr i) (cap_fields inv);
  mrs = map (field_at incr i) (val_fields inv);
}

abbrev pub rounds_from : ℕ → ℕ → Invocation → List (String × ℕ) → List Call
rounds_from zero i inv incr = []
rounds_from (suc n) i inv incr = round_at inv incr i ∷ rounds_from n (i + 1) inv incr

-- An invocation that is not repeated is one call with its own words.
abbrev pub expected : Command → List Call
expected cmd = elim cmd.repeated [
  | none ↦
      record {
        tag = expected_tag cmd.invocation;
        service = (service cmd.invocation).1;
        caps = values (cap_fields cmd.invocation);
        mrs = params cmd.invocation;
      }
      ∷ []
  | some r ↦ rounds_from r.repeat_count 0 cmd.invocation r.repeat_incr
]

-- `repeat` stores no count below 2, and the counter of the initial task reaches those below
-- 2 ** 32.
abbrev pub IsRepeatable : Command → Type 0
IsRepeatable cmd = elim cmd.repeated [
  | none ↦ Unit
  | some r ↦ (2 ≤ r.repeat_count) × (r.repeat_count < 2 ^ 32)
]
