-- ===== src/Builder/CSpace/System/Slots.antt =====
-- The slots of the system capability node are filled one after the other, each once.
use mathlib.Core.List.{append_assoc, append-nil}
use sel4cp.Prelude.{
  ℕ, suc, ◌+◌, ◌<◌, ◌≡◌, refl, sym, ap, subst, ◌∙◌, true, List, [], ◌∷◌, ◌++◌, map, arith, ok,
  ok_injective, assertion, >>=-eq-ok, guard-eq-ok, ltb, if◌then◌else◌, bit_or, length, ◌==◌, ==_iff,
}
use sel4cp.Invocation.{Command, once, repeat, cnode_mint, irq_control_get, asid_pool_assign}
use sel4cp.Description.{SysMap, SysIrq}
use sel4cp.Builder.InitSystem.Batches.{range, range-append}
use sel4cp.Builder.Layout.{assert_objects_adjacent}
use sel4cp.Builder.CSpace.{
  Caps, BuiltPd, info, first_of, mint_in_system, rights_all, init_asid_pool_cap,
}
use sel4cp.Builder.CSpace.Rounds.{rounds, spaced-range, repeat-rounds}
use sel4cp.Builder.CSpace.System.{
  Phase, irq_gets, irq_handlers, assign_asids, MrPages, find_pages, PageDescriptor, map_rights,
  mint_map, mint_maps, mint_pages, badge_irqs, badged_irqs, fault_target, mint_faults, SystemCaps,
  system_caps,
}

-- The addresses in the system capability node that a command fills, round by round.
abbrev pub filled_address : Caps → Command → List ℕ
filled_address c cmd = elim cmd.invocation [
  | irq_control_get control irq root index depth ↦ index ∷ []
  | cnode_mint cnode index depth root obj src_depth rights badge ↦
      if cnode == c.system_cnode_cap
      then map (bit_or c.system_cap_address_mask) (rounds "dest_index" index cmd)
      else []
  | _ ↦ []
]

abbrev pub filled_by : Caps → List Command → List ℕ
filled_by c [] = []
filled_by c (cmd ∷ cmds) = filled_address c cmd ++ filled_by c cmds

pub filled_by-append :
    (c : Caps) (xs ys : List Command) → filled_by c (xs ++ ys) ≡ filled_by c xs ++ filled_by c ys
filled_by-append c [] ys = refl
filled_by-append c (x ∷ xs) ys = rw (filled_by-append c xs ys) (simp append_assoc)

-- From one slot to the next free one, the commands fill every address in order and once.
pub record Fills (c : Caps) (cmds : List Command) (first next : ℕ) : Type 0 where
  pub count : ℕ
  pub next_slot : next ≡ first + count
  pub filled : filled_by c cmds ≡ map (bit_or c.system_cap_address_mask) (range first count)

-- No command fills nothing.
Fills-none : (c : Caps) (slot : ℕ) → Fills c [] slot slot
Fills-none c slot = record { count = 0; next_slot = omega arith; filled = refl }

map-append : (f : ℕ → ℕ) (xs ys : List ℕ) → map f (xs ++ ys) ≡ map f xs ++ map f ys
map-append f [] ys = refl
map-append f (x ∷ xs) ys = ap (λ t. f x ∷ t) (map-append f xs ys)

Fills-append :
    (c : Caps) (xs ys : List Command) (first mid next : ℕ)
    → Fills c xs first mid
    → Fills c ys mid next
    → Fills c (xs ++ ys) first next
Fills-append c xs ys first mid next h k = record {
  count = h.count + k.count;
  next_slot = let e = h.next_slot in let f = k.next_slot in omega (arith, e, f);
  filled =
      let mask = bit_or c.system_cap_address_mask in
      filled_by-append c xs ys
      ∙ rw (h.filled, k.filled, h.next_slot)
          (sym (map-append mask (range first h.count) (range (first + h.count) k.count))
            ∙ ap (map mask) (range-append first h.count k.count));
}

==_refl : (n : ℕ) → (n == n) ≡ true
==_refl n = (==_iff n n).1 refl

-- A mint into one slot.
Fills-mint :
    (c : Caps) (slot src rights badge : ℕ)
    → Fills c (once (mint_in_system c slot src rights badge) ∷ []) slot (slot + 1)
Fills-mint c slot src rights badge = record {
  count = 1;
  next_slot = refl;
  filled = rw (==_refl c.system_cnode_cap) refl;
}

Fills-irq_gets :
    (c : Caps) (slot : ℕ) (irqs : List SysIrq)
    → Fills c (irq_gets c slot irqs).commands slot (irq_gets c slot irqs).cap_slot
Fills-irq_gets c slot [] = Fills-none c slot
Fills-irq_gets c slot (i ∷ irqs) =
    Fills-append c (_ ∷ []) (irq_gets c (slot + 1) irqs).commands slot (slot + 1) _
      (record { count = 1; next_slot = refl; filled = refl }) (Fills-irq_gets c (slot + 1) irqs)

Fills-irq_handlers :
    (c : Caps) (slot : ℕ) (pds : List BuiltPd)
    → Fills c (irq_handlers c slot pds).commands slot (irq_handlers c slot pds).cap_slot
unfolding irq_handlers
Fills-irq_handlers c slot [] = Fills-none c slot
Fills-irq_handlers c slot (p ∷ ps) =
    let one = irq_gets c slot (info p).irqs in
    Fills-append c one.commands (irq_handlers c one.cap_slot ps).commands slot one.cap_slot _
      (Fills-irq_gets c slot (info p).irqs) (Fills-irq_handlers c one.cap_slot ps)

Fills-badge_irqs :
    (c : Caps) (p : BuiltPd) (slot : ℕ) (irqs : List SysIrq)
    → Fills c (badge_irqs c p slot irqs).commands slot (badge_irqs c p slot irqs).cap_slot
Fills-badge_irqs c p slot [] = Fills-none c slot
Fills-badge_irqs c p slot (i ∷ irqs) =
    Fills-append c (_ ∷ []) (badge_irqs c p (slot + 1) irqs).commands slot (slot + 1) _
      (Fills-mint c slot _ rights_all _) (Fills-badge_irqs c p (slot + 1) irqs)

Fills-badged_irqs :
    (c : Caps) (slot : ℕ) (pds : List BuiltPd)
    → Fills c (badged_irqs c slot pds).commands slot (badged_irqs c slot pds).cap_slot
unfolding badged_irqs
Fills-badged_irqs c slot [] = Fills-none c slot
Fills-badged_irqs c slot (p ∷ ps) =
    let one = badge_irqs c p slot (info p).irqs in
    Fills-append c one.commands (badged_irqs c one.cap_slot ps).commands slot one.cap_slot _
      (Fills-badge_irqs c p slot (info p).irqs) (Fills-badged_irqs c one.cap_slot ps)

Fills-mint_faults :
    (c : Caps) (pds : List BuiltPd) (slot : ℕ) (ps : List BuiltPd) {cmds : List Command} {next : ℕ}
    → mint_faults c pds slot ps ≡ ok (cmds, next)
    → Fills c cmds slot next
unfolding mint_faults
Fills-mint_faults c pds slot [] h =
    subst (λ r. Fills c r.0 slot r.1) (ok_injective h) (Fills-none c slot)
Fills-mint_faults c pds slot (p ∷ ps) h =
    let ((ep, badge), _, h1) = >>=-eq-ok (fault_target pds p) _ h in
    let ((rest, last), more, same) = >>=-eq-ok (mint_faults c pds (slot + 1) ps) _ h1 in
    subst (λ r. Fills c r.0 slot r.1) (ok_injective same)
      (Fills-append c (_ ∷ []) rest slot (slot + 1) last
        (Fills-mint c slot ep.cap_addr rights_all badge)
        (Fills-mint_faults c pds (slot + 1) ps more))

-- A repeated mint into as many slots as there are pages.
Fills-repeated :
    (c : Caps) (n slot src rights : ℕ) (cmd : Command)
    → 0 < n
    → repeat n (("dest_index", 1) ∷ ("src_obj", 1) ∷ []) (once (mint_in_system c slot src rights 0))
      ≡ ok cmd
    → Fills c (cmd ∷ []) slot (slot + n)
Fills-repeated c n slot src rights cmd some_pages h =
    let (kept, fields) =
      repeat-rounds n (("dest_index", 1) ∷ ("src_obj", 1) ∷ []) (mint_in_system c slot src rights 0)
        cmd some_pages h in
    record {
      count = n;
      next_slot = refl;
      filled =
          rw (kept, ==_refl c.system_cnode_cap, fields "dest_index" slot, spaced-range slot n)
            (append-nil (map (bit_or c.system_cap_address_mask) (range slot n)));
    }

pub Fills-mint_map :
    (c : Caps) (mrs : List MrPages) (pd_idx slot : ℕ) (mp : SysMap) {out : Phase PageDescriptor}
    → mint_map c mrs pd_idx slot mp ≡ ok out
    → Fills c out.commands slot out.cap_slot
unfolding mint_map
Fills-mint_map c mrs pd_idx slot mp h =
    let (m, _, h1) = >>=-eq-ok (find_pages mp.mr mrs) _ h in
    let (_, h2) = guard-eq-ok (ltb 0 (length m.pages)) assertion _ h1 in
    let (_, _, h3) = >>=-eq-ok (assert_objects_adjacent m.pages) _ h2 in
    let (page, _, h4) = >>=-eq-ok (first_of m.pages) _ h3 in
    let (mint, minted, same) =
      >>=-eq-ok
        (repeat (length m.pages) (("dest_index", 1) ∷ ("src_obj", 1) ∷ [])
          (once (mint_in_system c slot page.cap_addr (map_rights mp.perms) 0)))
        _ h4 in
    subst (λ r. Fills c r.commands slot r.cap_slot) (ok_injective same)
      (Fills-repeated c (length m.pages) slot page.cap_addr (map_rights mp.perms) mint
        (ground arith) minted)

pub Fills-mint_maps :
    (c : Caps) (mrs : List MrPages) (pd_idx slot : ℕ) (mps : List SysMap)
    {out : Phase (List PageDescriptor)}
    → mint_maps c mrs pd_idx slot mps ≡ ok out
    → Fills c out.commands slot out.cap_slot
unfolding mint_maps
Fills-mint_maps c mrs pd_idx slot [] h =
    subst (λ r. Fills c r.commands slot r.cap_slot) (ok_injective h) (Fills-none c slot)
Fills-mint_maps c mrs pd_idx slot (mp ∷ mps) h =
    let (one, first, h1) = >>=-eq-ok (mint_map c mrs pd_idx slot mp) _ h in
    let (rest, more, same) = >>=-eq-ok (mint_maps c mrs pd_idx one.cap_slot mps) _ h1 in
    subst (λ r. Fills c r.commands slot r.cap_slot) (ok_injective same)
      (Fills-append c one.commands rest.commands slot one.cap_slot rest.cap_slot
        (Fills-mint_map c mrs pd_idx slot mp first)
        (Fills-mint_maps c mrs pd_idx one.cap_slot mps more))

pub Fills-mint_pages :
    (c : Caps) (mrs : List MrPages) (pd_idx slot : ℕ) (ps : List BuiltPd)
    {out : Phase (List (List PageDescriptor))}
    → mint_pages c mrs pd_idx slot ps ≡ ok out
    → Fills c out.commands slot out.cap_slot
unfolding mint_pages
Fills-mint_pages c mrs pd_idx slot [] h =
    subst (λ r. Fills c r.commands slot r.cap_slot) (ok_injective h) (Fills-none c slot)
Fills-mint_pages c mrs pd_idx slot (p ∷ ps) h =
    let (one, first, h1) =
      >>=-eq-ok (mint_maps c mrs pd_idx slot ((info p).maps ++ p.extra_maps)) _ h in
    let (rest, more, same) = >>=-eq-ok (mint_pages c mrs (pd_idx + 1) one.cap_slot ps) _ h1 in
    subst (λ r. Fills c r.commands slot r.cap_slot) (ok_injective same)
      (Fills-append c one.commands rest.commands slot one.cap_slot rest.cap_slot
        (Fills-mint_maps c mrs pd_idx slot ((info p).maps ++ p.extra_maps) first)
        (Fills-mint_pages c mrs (pd_idx + 1) one.cap_slot ps more))

-- The assignment of address space identifiers fills no slot.
Fills-assign_asids :
    (c : Caps) (pds : List BuiltPd) (slot : ℕ) (cmd : Command)
    → assign_asids pds ≡ ok cmd
    → Fills c (cmd ∷ []) slot slot
unfolding assign_asids
Fills-assign_asids c [] slot cmd h = cc
Fills-assign_asids c (p ∷ ps) slot cmd h =
    let (kept, _) =
      repeat-rounds (suc (length ps)) (("vspace", 1) ∷ [])
        (asid_pool_assign init_asid_pool_cap p.vspace.cap_addr) cmd (omega arith) h in
    record { count = 0; next_slot = omega arith; filled = rw kept refl }

-- Where the phases return, their commands together fill every address of the system capability node
-- from the first slot to the next free one, in order and once: with interrupt handlers, with the
-- pages of all maps, with badged notifications and with the endpoints of faults.
pub system_caps-Fills :
    (c : Caps) (mrs : List MrPages) (slot : ℕ) (pds : List BuiltPd) {out : SystemCaps}
    → system_caps c mrs slot pds ≡ ok out
    → Fills c out.commands slot out.next_slot
unfolding system_caps
system_caps-Fills c mrs slot pds h =
    let irqs = irq_handlers c slot pds in
    let (asids, assigned, h1) = >>=-eq-ok (assign_asids pds) _ h in
    let (pages, minted, h2) = >>=-eq-ok (mint_pages c mrs 0 irqs.cap_slot pds) _ h1 in
    let badged = badged_irqs c pages.cap_slot pds in
    let ((faults, next), faulted, same) = >>=-eq-ok (mint_faults c pds badged.cap_slot pds) _ h2 in
    subst (λ r. Fills c r.commands slot r.next_slot) (ok_injective same)
      (Fills-append c (irqs.commands ++ asids ∷ pages.commands ++ badged.commands) faults slot
        badged.cap_slot next
        (Fills-append c (irqs.commands ++ asids ∷ pages.commands) badged.commands slot
          pages.cap_slot badged.cap_slot
          (Fills-append c irqs.commands (asids ∷ pages.commands) slot irqs.cap_slot pages.cap_slot
            (Fills-irq_handlers c slot pds)
            (Fills-append c (asids ∷ []) pages.commands irqs.cap_slot irqs.cap_slot pages.cap_slot
              (Fills-assign_asids c pds irqs.cap_slot asids assigned)
              (Fills-mint_pages c mrs 0 irqs.cap_slot pds minted)))
          (Fills-badged_irqs c pages.cap_slot pds))
        (Fills-mint_faults c pds badged.cap_slot pds faulted))
