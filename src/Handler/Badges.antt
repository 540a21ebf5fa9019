-- ===== src/Handler/Badges.antt =====
-- The badges that the builder gives are read at run time as what they stand for.
use sel4cp.Prelude.{
  ℕ, zero, suc, ◌+◌, ◌*◌, ◌/◌, ◌%◌, ◌^◌, ◌<◌, ◌≡◌, ◌≢◌, bit_and, bit_or, refl, sym, ap, subst, ◌∙◌,
  Bool, true, false, List, [], ◌∷◌, ◌++◌, ok, ◌==◌, if◌then◌else◌, arith, Bool-cases, inl, inr, map,
}
use native.Mathlib.Nat.{div-div-eq-div-mul}
use sel4cp.Bits.{bit_or-disjoint, bit_and-mask, pow_double, pow_pos}
use sel4cp.Words.Position.{pow_mono}
use sel4cp.Builder.CSpace.{badge_type_fault, badge_fault_root, badge_type_ppc, badge_type_root_ppc}
use sel4cp.Builder.InitSystem.Batches.{range}
use sel4cp.Handler.{failed, fault, protected, notified, notify_loop, dispatch}

-- The channels of the list whose bit is set in the badge.
abbrev pub set_channels : ℕ → List ℕ → List ℕ
set_channels badge [] = []
set_channels badge (ch ∷ chs) =
    if badge / 2 ^ ch % 2 == 1 then ch ∷ set_channels badge chs else set_channels badge chs

shifted : (badge i : ℕ) → badge / 2 ^ i / 2 ≡ badge / 2 ^ (i + 1)
shifted badge i = div-div-eq-div-mul badge (2 ^ i) 2 ∙ ap (λ t. badge / t) (sym twice)
  where
    twice : 2 ^ (i + 1) ≡ 2 ^ i * 2
    twice = let e : i + 1 ≡ suc i = omega arith in rw e (omega (arith, pow_double i))

no_bits : (badge i : ℕ) → badge / 2 ^ i ≡ 0 → badge / 2 ^ (i + 1) ≡ 0
no_bits badge i h = let e = shifted badge i in omega (arith, e, h)

set_channels-none : (badge i n : ℕ) → badge / 2 ^ i ≡ 0 → set_channels badge (range i n) ≡ []
set_channels-none badge i zero h = refl
set_channels-none badge i (suc n) h = rw h (set_channels-none badge (i + 1) n (no_bits badge i h))

-- One channel before others.
here_first :
    (b : Bool) (i : ℕ) (chs : List ℕ)
    → (if b then notified i ∷ [] else []) ++ map notified chs
      ≡ map notified (if b then i ∷ chs else chs)
here_first true i chs = refl
here_first false i chs = refl

here_only :
    (b : Bool) (i : ℕ)
    → (if b then notified i ∷ [] else []) ≡ map notified (if b then i ∷ [] else [])
here_only true i = refl
here_only false i = refl

-- The loop, from bit `i` of a badge that has no bits above its rounds.
notify_loop-set_channels :
    (fuel badge i : ℕ)
    → badge / 2 ^ (i + fuel) ≡ 0
    → 0 < fuel
    → notify_loop fuel (badge / 2 ^ i) i ≡ ok (map notified (set_channels badge (range i fuel)))
unfolding notify_loop
notify_loop-set_channels zero badge i h some_rounds = absurd (omega (arith, some_rounds))
notify_loop-set_channels (suc fuel) badge i h some_rounds =
    let e = shifted badge i in
    elim (Bool-cases (badge / 2 ^ i / 2 == 0)) [
      | inl last ↦
          let none_left : set_channels badge (range (i + 1) fuel) ≡ [] =
            set_channels-none badge (i + 1) fuel (ground (arith, e, last)) in
          rw (last, none_left) (ap ok (here_only (badge / 2 ^ i % 2 == 1) i))
      | inr more ↦
          let top : i + suc fuel ≡ i + 1 + fuel = omega arith in
          let h' : badge / 2 ^ (i + 1 + fuel) ≡ 0 = subst (λ t. badge / 2 ^ t ≡ 0) top h in
          let left : 0 < fuel = rounds_left fuel h' (ground (arith, e, more)) in
          rw (more, e, notify_loop-set_channels fuel badge (i + 1) h' left)
            (ap ok
              (here_first (badge / 2 ^ i % 2 == 1) i (set_channels badge (range (i + 1) fuel))))
    ]
  where
    rounds_left : (f : ℕ) → badge / 2 ^ (i + 1 + f) ≡ 0 → badge / 2 ^ (i + 1) ≢ 0 → 0 < f
    rounds_left zero z nz =
        let e : i + 1 + 0 ≡ i + 1 = omega arith in absurd (nz (subst (λ t. badge / 2 ^ t ≡ 0) e z))
    rounds_left (suc f) z nz = omega arith

-- A badge of 64 bits ends the loop, and the channels whose bits are set are notified, in rising order
-- and once.
loop_lem :
    (badge : ℕ)
    → badge < 2 ^ 64
    → notify_loop 64 badge 0 ≡ ok (map notified (set_channels badge (range 0 64)))
loop_lem badge h =
    subst (λ t. notify_loop 64 t 0 ≡ ok (map notified (set_channels badge (range 0 64))))
      (omega arith) (notify_loop-set_channels 64 badge 0 (omega (arith, h)) (omega arith))

dispatch-untyped : (badge : ℕ) → badge / 2 ^ 62 ≡ 0 → dispatch badge ≡ notify_loop 64 badge 0
unfolding dispatch
dispatch-untyped badge z = rw z refl

-- A badge below the type bits, where the signals of several channels have come together: the function
-- for notifications is called for exactly the channels whose bits are set, in rising order and once
-- each, and the loop ends.
pub dispatch-set_channels :
    (badge : ℕ)
    → badge < 2 ^ 62
    → dispatch badge ≡ ok (map notified (set_channels badge (range 0 64)))
dispatch-set_channels badge h =
    dispatch-untyped badge (omega (arith, h)) ∙ loop_lem badge (omega (arith, h))

-- One bit is found by the loop.
one_bit : (k fuel i : ℕ) → k < fuel → notify_loop fuel (2 ^ k) i ≡ ok (notified (i + k) ∷ [])
unfolding notify_loop
one_bit k zero i h = absurd (omega (arith, h))
one_bit zero (suc fuel) i h = let e : i + 0 ≡ i = omega arith in rw e refl
one_bit (suc k) (suc fuel) i h =
    let d : 2 ^ suc k / 2 ≡ 2 ^ k = omega (arith, pow_double k) in
    let m : 2 ^ suc k % 2 ≡ 0 = omega (arith, pow_double k) in
    let n : (2 ^ k == 0) ≡ false = ground (arith, pow_pos k) in
    let e : i + suc k ≡ i + 1 + k = omega arith in
    rw (d, m, n, e, one_bit k fuel (i + 1) (omega (arith, h))) refl

-- A number below the type bits of a badge.
typed : (q n : ℕ) → n < 256 → bit_or (q * 2 ^ 62) n ≡ q * 2 ^ 62 + n
typed q n h = bit_or-disjoint 62 q n (omega (arith, h))

-- For a channel identifier below 62 and a thread or child number below 256, the badges of a
-- notification, of a protected call, of a call to the root domain and of a fault are read back as what
-- they were made for, a root domain's own fault stops it, and the badge of the identifier 62 is read
-- as a fault.
pub dispatch-bit_or :
    (id thread : ℕ)
    → id < 62
    → thread < 256
    → (dispatch (2 ^ id) ≡ ok (notified id ∷ []))
      × (dispatch (bit_or badge_type_ppc id) ≡ ok (protected false id ∷ []))
      × (dispatch (bit_or badge_type_root_ppc thread) ≡ ok (protected true thread ∷ []))
      × (dispatch (bit_or badge_type_fault thread) ≡ ok (fault thread ∷ []))
      × (dispatch (badge_type_fault + badge_fault_root) ≡ ok (failed ∷ []))
      × (dispatch (2 ^ 62) ≡ ok (fault 0 ∷ []))
unfolding dispatch
dispatch-bit_or id thread hi ht = (
  (let small : 2 ^ id / 2 ^ 62 ≡ 0 =
        omega (arith, pow_mono (suc id) 62 hi, pow_double id, pow_pos id) in
      dispatch-untyped (2 ^ id) small
      ∙ one_bit id 64 0 (omega (arith, hi))
      ∙ ap (λ t. ok (notified t ∷ [])) (omega arith)),
  (let e : bit_or badge_type_ppc id ≡ 2 * 2 ^ 62 + id = typed 2 id (omega (arith, hi)) in
      let t : (2 * 2 ^ 62 + id) / 2 ^ 62 ≡ 2 = omega (arith, hi) in
      let m : bit_and (2 * 2 ^ 62 + id) 0x3f ≡ id =
        bit_and-mask 6 (2 * 2 ^ 62 + id) ∙ omega (arith, hi) in
      rw (e, t, m) refl),
  (let e : bit_or badge_type_root_ppc thread ≡ 3 * 2 ^ 62 + thread = typed 3 thread ht in
      let t : (3 * 2 ^ 62 + thread) / 2 ^ 62 ≡ 3 = omega (arith, ht) in
      let m : bit_and (3 * 2 ^ 62 + thread) 0xff ≡ thread =
        bit_and-mask 8 (3 * 2 ^ 62 + thread) ∙ omega (arith, ht) in
      rw (e, t, m) refl),
  (let e : bit_or badge_type_fault thread ≡ 1 * 2 ^ 62 + thread = typed 1 thread ht in
      let t : (1 * 2 ^ 62 + thread) / 2 ^ 62 ≡ 1 = omega (arith, ht) in
      let r : (1 * 2 ^ 62 + thread) / 2 ^ 61 % 2 ≡ 0 = omega (arith, ht) in
      let m : bit_and (1 * 2 ^ 62 + thread) 0xff ≡ thread =
        bit_and-mask 8 (1 * 2 ^ 62 + thread) ∙ omega (arith, ht) in
      rw (e, t, r, m) refl),
  refl,
  refl,
)
