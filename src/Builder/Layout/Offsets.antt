-- ===== src/Builder/Layout/Offsets.antt =====
-- Slots of a protection domain's capability space, and ranges that overlap.
use sel4cp.Prelude.{
  ℕ, max, ◌+◌, ◌-◌, ◌*◌, ◌≤◌, ◌<◌, ◌≡◌, ◌↔◌, sym, ◌∙◌, true, arith, Result, ok, ltb, if◌then◌else◌,
}
use sel4cp.Builder.CSpace.{
  root_pd_ep_cap_idx, vspace_cap_idx, reply_cap_idx, input_cap_idx, self_cnode_cap_idx,
  self_tcb_cap_idx, schedcontrol_cap_idx, base_output_ntfn_cap_idx, base_output_ep_cap_idx,
  base_irq_cap,
}
use sel4cp.Builder.Layout.{
  base_tcb_cap, pd_cap_size, get_thread_sc_offset, get_thread_cspace_offset,
  get_thread_reply_offset, get_pd_vspace_offset, overlaps,
}

-- What a slot is used for: the capabilities that a domain has once, the notification or endpoint of a channel, an interrupt, the objects of a
-- thread, and the address space of a domain.
pub data SlotUse : Type 0 where
  root_pd_ep own_vspace own_reply input self_cnode self_tcb schedcontrol : SlotUse
  output_ntfn output_ep irq tcb sc cspace reply vspace : (number : ℕ) → SlotUse

-- The slot of a use, in a domain with `n` threads.
abbrev pub slot_of : ℕ → SlotUse → Result ℕ
slot_of n root_pd_ep = ok root_pd_ep_cap_idx
slot_of n own_vspace = ok vspace_cap_idx
slot_of n own_reply = ok reply_cap_idx
slot_of n input = ok input_cap_idx
slot_of n self_cnode = ok self_cnode_cap_idx
slot_of n self_tcb = ok self_tcb_cap_idx
slot_of n schedcontrol = ok schedcontrol_cap_idx
slot_of n (output_ntfn id) = ok (base_output_ntfn_cap_idx + id)
slot_of n (output_ep id) = ok (base_output_ep_cap_idx + id)
slot_of n (irq id) = ok (base_irq_cap + id)
slot_of n (tcb i) = ok (base_tcb_cap + i)
slot_of n (sc i) = get_thread_sc_offset n i
slot_of n (cspace i) = get_thread_cspace_offset n i
slot_of n (reply i) = get_thread_reply_offset n i
slot_of n (vspace i) = get_pd_vspace_offset n i

-- Identifiers are below 64, and thread numbers below the number of threads.
abbrev pub IsInRange : ℕ → SlotUse → Type 0
IsInRange n root_pd_ep = Unit
IsInRange n own_vspace = Unit
IsInRange n own_reply = Unit
IsInRange n input = Unit
IsInRange n self_cnode = Unit
IsInRange n self_tcb = Unit
IsInRange n schedcontrol = Unit
IsInRange n (output_ntfn id) = id < 64
IsInRange n (output_ep id) = id < 64
IsInRange n (irq id) = id < 64
IsInRange n (tcb i) = i < n
IsInRange n (sc i) = i < n
IsInRange n (cspace i) = i < n
IsInRange n (reply i) = i < n
IsInRange n (vspace i) = Unit

-- The use of a slot, read back from it.
abbrev use_of : ℕ → ℕ → SlotUse
use_of n s =
    if ltb s 2
    then root_pd_ep
    else if ltb s 3
    then own_vspace
    else if ltb s 5
    then own_reply
    else if ltb s 6
    then input
    else if ltb s 7
    then self_cnode
    else if ltb s 8
    then self_tcb
    else if ltb s 9
    then schedcontrol
    else if ltb s 74
    then output_ntfn (s - 10)
    else if ltb s 138
    then output_ep (s - 74)
    else if ltb s 202
    then irq (s - 138)
    else if ltb s (202 + n)
    then tcb (s - 202)
    else if ltb s (202 + n * 2)
    then sc (s - (202 + n))
    else if ltb s (202 + n * 3)
    then cspace (s - (202 + n * 2))
    else if ltb s (202 + n * 4)
    then reply (s - (202 + n * 3))
    else vspace (s - (202 + n * 4))

use_of-slot_of : (n s : ℕ) (u : SlotUse) → IsInRange n u → slot_of n u ≡ ok s → use_of n s ≡ u
unfolding get_thread_sc_offset get_thread_cspace_offset get_thread_reply_offset get_pd_vspace_offset
use_of-slot_of n s root_pd_ep h e = ground arith
use_of-slot_of n s own_vspace h e = ground arith
use_of-slot_of n s own_reply h e = ground arith
use_of-slot_of n s input h e = ground arith
use_of-slot_of n s self_cnode h e = ground arith
use_of-slot_of n s self_tcb h e = ground arith
use_of-slot_of n s schedcontrol h e = ground arith
use_of-slot_of n s (output_ntfn id) h e = ground arith
use_of-slot_of n s (output_ep id) h e = ground arith
use_of-slot_of n s (irq id) h e = ground arith
use_of-slot_of n s (tcb i) h e = ground arith
use_of-slot_of n s (sc i) h e = ground arith
use_of-slot_of n s (cspace i) h e = ground arith
use_of-slot_of n s (reply i) h e = ground arith
use_of-slot_of n s (vspace i) h e = ground arith

slot_of-bounds :
    (n s : ℕ) (u : SlotUse)
    → base_tcb_cap + n ≤ pd_cap_size
    → IsInRange n u
    → slot_of n u ≡ ok s
    → (0 < s) × (s < pd_cap_size)
unfolding get_thread_sc_offset get_thread_cspace_offset get_thread_reply_offset get_pd_vspace_offset
slot_of-bounds n s root_pd_ep room h e = ground arith
slot_of-bounds n s own_vspace room h e = ground arith
slot_of-bounds n s own_reply room h e = ground arith
slot_of-bounds n s input room h e = ground arith
slot_of-bounds n s self_cnode room h e = ground arith
slot_of-bounds n s self_tcb room h e = ground arith
slot_of-bounds n s schedcontrol room h e = ground arith
slot_of-bounds n s (output_ntfn i) room h e = ground arith
slot_of-bounds n s (output_ep i) room h e = ground arith
slot_of-bounds n s (irq i) room h e = ground arith
slot_of-bounds n s (tcb i) room h e = ground arith
slot_of-bounds n s (sc i) room h e = ground arith
slot_of-bounds n s (cspace i) room h e = ground arith
slot_of-bounds n s (reply i) room h e = ground arith
slot_of-bounds n s (vspace i) room h e = ground arith

-- The slots of a protection domain have one use each: two uses, with identifiers below 64 and with
-- thread numbers below the domain's number of threads, whose slots are found and are the same, are
-- the same use with the same number, and its slot lies above 0 and inside the capability space where
-- the number of threads leaves room for the control blocks.
pub slot_of_injective :
    (n s : ℕ) (u v : SlotUse)
    → base_tcb_cap + n ≤ pd_cap_size
    → IsInRange n u
    → IsInRange n v
    → slot_of n u ≡ ok s
    → slot_of n v ≡ ok s
    → (u ≡ v) × (0 < s) × (s < pd_cap_size)
slot_of_injective n s u v room hu hv eu ev =
    let bounds = slot_of-bounds n s u room hu eu in
    (sym (use_of-slot_of n s u hu eu) ∙ use_of-slot_of n s v hv ev, bounds.0, bounds.1)

-- Two ranges that are not empty overlap exactly where some address lies in both.
pub overlaps_lem :
    (b1 s1 b2 s2 : ℕ)
    → 0 < s1
    → 0 < s2
    → (overlaps (b1, s1) (b2, s2) ≡ true)
      ↔ ((a : ℕ) × (b1 ≤ a) × (a < b1 + s1) × (b2 ≤ a) × (a < b2 + s2))
unfolding overlaps
overlaps_lem b1 s1 b2 s2 p q = (
  (λ h. (max b1 b2, ground arith, ground arith, ground arith, ground arith)),
  (λ w. ground (arith, w.1, w.2, w.3, w.4)),
)
