-- ===== src/Sysinit/Replay/Rounds.antt =====
-- The fields of one round of a command.
use mathlib.Core.Path.{ap₂}
use Prim.Native.String.{String}
use sel4cp.Prelude.{
  ℕ, ◌+◌, ◌*◌, ◌%◌, ◌^◌, ◌<◌, ◌≡◌, refl, ap, true, List, [], ◌∷◌, ◌++◌, map, arith, Bool-cases, inl,
  inr, ◌==◌, length,
}
use sel4cp.Words.{word_mod}
use sel4cp.Invocation.{fields, extra_caps, tcb_write_registers, tcb_resume, Invocation}
use sel4cp.Invocation.Registers.{count, as_tuple}
use sel4cp.Invocation.Labels.{Label, label_value}
use sel4cp.Invocation.Encode.{all_words, increment, values, val_fields, params, increments}
use sel4cp.Sysinit.{stepped, stepped_all}
use sel4cp.Sysinit.Expected.{field_at}

pub label_value-lt : (l : Label) → label_value l < 2 ^ 20
unfolding label_value
label_value-lt Label.untyped_retype = omega arith
label_value-lt _ = omega arith

pub stepped_lem : (i x incr : ℕ) → x < word_mod → stepped i x incr ≡ (x + incr * i) % word_mod
stepped_lem i x incr h = elim (Bool-cases (i == 0)) [
  | inl z ↦ let none_yet : i ≡ 0 = ground arith in rw none_yet (omega arith)
  | inr nz ↦ rw nz refl
]

pub stepped_all_lem :
    (incr : List (String × ℕ)) (i : ℕ) (fs : List (String × ℕ))
    → all_words (values fs) ≡ true
    → stepped_all i (values fs) (increments incr fs) ≡ map (field_at incr i) fs
stepped_all_lem incr i [] h = refl
stepped_all_lem incr i ((nm, v) ∷ fs) h =
    ap₂ (λ t ts. t ∷ ts) (stepped_lem i v (increment incr nm) (ground arith))
      (stepped_all_lem incr i fs (ground arith))

pub stepped_all_once : (xs : List ℕ) → stepped_all 0 xs [] ≡ xs
stepped_all_once [] = refl
stepped_all_once (x ∷ xs) = ap (λ t. x ∷ t) (stepped_all_once xs)

pub all_words-append :
    (xs ys : List ℕ) → all_words (xs ++ ys) ≡ true → (all_words xs ≡ true) × (all_words ys ≡ true)
all_words-append [] ys h = (refl, h)
all_words-append (x ∷ xs) ys h = ground (arith, all_words-append xs ys)

-- The registers' own words are never repeated: the format would have too few values.
pub params-val_fields :
    (inv : Invocation)
    → length (values (val_fields inv)) ≡ length (params inv)
    → params inv ≡ values (val_fields inv)
unfolding fields extra_caps count as_tuple
params-val_fields (tcb_write_registers tcb resume arch_flags regs) h = absurd (omega arith)
params-val_fields (tcb_resume tcb) h = refl
params-val_fields _ h = refl

pub first_two :
    (a b : ℕ) (ws : List ℕ) → all_words (a ∷ b ∷ ws) ≡ true → (b < word_mod) × (all_words ws ≡ true)
first_two a b ws h = ground arith
