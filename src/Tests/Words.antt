-- ===== src/Tests/Words.antt =====
-- Runs of the arithmetic of tool/sel4coreplat/util.py.
use sel4cp.Prelude.{◌≡◌, refl, pos, ok, true}
use sel4cp.Words.{lsb, round_up, is_power_of_two}

round_up_5 : round_up 5 4 ≡ 8
unfolding round_up
round_up_5 = refl

lsb_40 : lsb 40 ≡ pos 3
unfolding lsb
lsb_40 = refl

is_power_of_two_64 : is_power_of_two 64 ≡ ok true
unfolding is_power_of_two
is_power_of_two_64 = refl
