-- ===== src/Handler.antt =====
-- How a protection domain reads a badge at run time: the part of `handler_loop` of
-- libsel4cp/src/main.c behind the receiving. What it calls are events.
pub mod Badges
use sel4cp.Prelude.{
  ℕ, zero, suc, ◌+◌, ◌/◌, ◌%◌, ◌^◌, bit_and, Bool, true, false, List, [], ◌∷◌, ◌++◌, Result, ok,
  err, out_of_fuel, ◌>>=◌, ◌==◌, if◌then◌else◌,
}

pub data Event : Type 0 where
  -- `seL4_Fail`.
  failed : Event
  fault : (thread : ℕ) → Event
  protected : (is_child : Bool) (identifier : ℕ) → Event
  notified : (channel : ℕ) → Event

-- The loop over the bits; `fuel` bounds the rounds behind this one.
unfoldable pub notify_loop : ℕ → ℕ → ℕ → Result (List Event)
notify_loop zero badge idx = err out_of_fuel
notify_loop (suc fuel) badge idx =
    let rest = notify_loop fuel (badge / 2) (idx + 1) in
    let here = if badge % 2 == 1 then notified idx ∷ [] else [] in
    if badge / 2 == 0 then ok here else (do events ← rest; ok (here ++ events))

abbrev badge_type : ℕ → ℕ
badge_type badge = badge / 2 ^ 62

-- A word has 64 bits.
unfoldable pub dispatch : ℕ → Result (List Event)
dispatch badge =
    if badge_type badge == 1
    then (if badge / 2 ^ 61 % 2 == 1
        then ok (failed ∷ [])
        else ok (fault (bit_and badge 0xff) ∷ []))
    else if badge_type badge == 2
    then ok (protected false (bit_and badge 0x3f) ∷ [])
    else if badge_type badge == 3
    then ok (protected true (bit_and badge 0xff) ∷ [])
    else notify_loop 64 badge 0
