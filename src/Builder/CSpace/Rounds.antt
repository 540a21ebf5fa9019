-- ===== src/Builder/CSpace/Rounds.antt =====
-- The values that a field of a repeated command takes in its rounds.
use Prim.Native.String.{String}
use sel4cp.Prelude.{
  ℕ, zero, suc, ◌+◌, ◌<◌, ◌≤◌, ◌≡◌, refl, sym, ap, ◌∙◌, Bool, List, [], ◌∷◌, none, some, arith, ok,
  ok_injective, assertion, guard, Result, ◌>>◌, guard-eq-ok, Bool-cases, inl, inr, ◌⊎◌, ltb,
  if◌then◌else◌,
}
use sel4cp.Invocation.{Invocation, Command, once, repeat, is_nonempty, all_known, field_names}
use sel4cp.Invocation.Encode.{increment}
use sel4cp.Builder.InitSystem.Batches.{range}

-- How often a command is performed.
abbrev pub times : Command → ℕ
times cmd = elim cmd.repeated [ none ↦ 1 | some r ↦ r.repeat_count ]

-- By how much a field grows from round to round.
abbrev pub step : String → Command → ℕ
step nm cmd = elim cmd.repeated [ none ↦ 0 | some r ↦ increment r.repeat_incr nm ]

abbrev pub spaced : ℕ → ℕ → ℕ → List ℕ
spaced first incr zero = []
spaced first incr (suc n) = first ∷ spaced (first + incr) incr n

-- The values of the field of this name, which is `first` in the invocation.
abbrev pub rounds : String → ℕ → Command → List ℕ
rounds nm first cmd = spaced first (step nm cmd) (times cmd)

pub spaced-range : (a n : ℕ) → spaced a 1 n ≡ range a n
spaced-range a zero = refl
spaced-range a (suc n) = ap (λ t. a ∷ t) (spaced-range (a + 1) n)

-- A single round does not depend on the increment.
spaced-one : (a i j : ℕ) → spaced a i 1 ≡ spaced a j 1
spaced-one a i j = refl

abbrev stored : ℕ → List (String × ℕ) → Invocation → Command
stored count kwargs inv = record {
  invocation = inv;
  repeated = some (record { repeat_count = count; repeat_incr = kwargs });
}

-- What `repeat` leaves of a command that is made once.
repeat-eq-ok :
    (count : ℕ) (kwargs : List (String × ℕ)) (inv : Invocation) (cmd : Command)
    → repeat count kwargs (once inv) ≡ ok cmd
    → ((1 < count) × (stored count kwargs inv ≡ cmd)) ⊎ ((count ≤ 1) × (once inv ≡ cmd))
unfolding repeat
repeat-eq-ok count kwargs inv cmd h = elim (Bool-cases (ltb 1 count)) [
  | inl many ↦
      let (_, h1) =
        guard-eq-ok (is_nonempty kwargs) assertion
          (guard (all_known kwargs (field_names inv)) assertion >> ok (stored count kwargs inv))
          (sym (ap choice many) ∙ h) in
      let (_, same) =
        guard-eq-ok (all_known kwargs (field_names inv)) assertion (ok (stored count kwargs inv))
          h1 in
      inl (ground arith, ok_injective same)
  | inr few ↦ inr (ground arith, ok_injective (sym (ap choice few) ∙ h))
]
  where
    choice : Bool → Result Command
    choice b =
        if b
        then (do
          guard (is_nonempty kwargs) assertion
          guard (all_known kwargs (field_names inv)) assertion
          ok (stored count kwargs inv))
        else ok (once inv)

-- The invocation is kept, and where the count is not 0, it is performed that often, with the fields
-- raised by the increments.
pub repeat-rounds :
    (count : ℕ) (kwargs : List (String × ℕ)) (inv : Invocation) (cmd : Command)
    → 0 < count
    → repeat count kwargs (once inv) ≡ ok cmd
    → (cmd.invocation ≡ inv)
      × ((nm : String) (first : ℕ) → rounds nm first cmd ≡ spaced first (increment kwargs nm) count)
repeat-rounds count kwargs inv cmd some_rounds h = elim (repeat-eq-ok count kwargs inv cmd h) [
  | inl (many, same) ↦
      (sym (ap (λ c. c.invocation) same), λ nm first. ap (λ c. rounds nm first c) (sym same))
  | inr (few, same) ↦
      let one : count ≡ 1 = omega arith in
      (
        sym (ap (λ c. c.invocation) same),
        λ nm first.
            ap (λ c. rounds nm first c) (sym same)
            ∙ spaced-one first 0 (increment kwargs nm)
            ∙ ap (spaced first (increment kwargs nm)) (sym one),
      )
]
