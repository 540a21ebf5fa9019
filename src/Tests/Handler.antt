-- ===== src/Tests/Handler.antt =====
-- Badges that a protection domain reads.
use sel4cp.Prelude.{◌+◌, ◌^◌, ◌≡◌, refl, arith, [], ◌∷◌, map, false, true, ok, bit_or}
use sel4cp.Builder.CSpace.{badge_type_fault, badge_fault_root, badge_type_ppc, badge_type_root_ppc}
use sel4cp.Builder.InitSystem.Batches.{range}
use sel4cp.Handler.{notified, protected, fault, failed, dispatch}
use sel4cp.Handler.Badges.{set_channels, dispatch-set_channels, dispatch-bit_or}

channels_run : set_channels 0b1011 (range 0 64) ≡ 0 ∷ 1 ∷ 3 ∷ []
channels_run = refl

dispatch-set_channels_example :
    dispatch 0b1011 ≡ ok (map notified (set_channels 0b1011 (range 0 64)))
dispatch-set_channels_example = dispatch-set_channels 0b1011 (omega arith)

dispatch-bit_or_example :
    (dispatch (2 ^ 5) ≡ ok (notified 5 ∷ []))
    × (dispatch (bit_or badge_type_ppc 5) ≡ ok (protected false 5 ∷ []))
    × (dispatch (bit_or badge_type_root_ppc 7) ≡ ok (protected true 7 ∷ []))
    × (dispatch (bit_or badge_type_fault 7) ≡ ok (fault 7 ∷ []))
    × (dispatch (badge_type_fault + badge_fault_root) ≡ ok (failed ∷ []))
    × (dispatch (2 ^ 62) ≡ ok (fault 0 ∷ []))
dispatch-bit_or_example = dispatch-bit_or 5 7 (omega arith) (omega arith)
