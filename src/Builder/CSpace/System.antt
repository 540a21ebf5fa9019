-- ===== src/Builder/CSpace/System.antt =====
-- The capabilities that the builder puts into the system capability node once all objects are made:
-- interrupt handlers, the pages to map, badged notifications and the endpoints of faults.
pub mod Slots
use text.Mathlib.Text.{◌==◌ as str_eq}
use Prim.Native.String.{String}
use sel4cp.Prelude.{
  ℕ, ◌+◌, ◌*◌, ◌^◌, bit_or, Bool, true, false, Option, none, some, List, [], ◌∷◌, ◌++◌, Result, ok,
  err, assertion, key_error, index_error, guard, ◌>>=◌, ◌>>◌, ltb, if◌then◌else◌, length, map,
}
use sel4cp.Invocation.{
  Invocation, Command, once, repeat, irq_control_get, asid_pool_assign, cnode_mint,
}
use sel4cp.Description.{FlatPd, ProtectionDomain, SysMap, SysIrq, SysMemoryRegion, Perms}
use sel4cp.Builder.InitSystem.{KernelObject}
use sel4cp.Builder.Layout.{assert_objects_adjacent}
use sel4cp.Builder.CSpace.{
  Caps, BuiltPd, info, pd_name, endpoint_of, find_pd, first_of, mint_in_system, irq_control_cap,
  init_asid_pool_cap, rights_read, rights_write, rights_all, badge_type_fault, badge_fault_root,
}

-- What a phase leaves: its commands, what it computed, and the next free slot.
pub record Phase (A : Type 0) : Type 0 where
  pub commands : List Command
  pub computed : A
  pub cap_slot : ℕ

-- The interrupt handlers of one domain, with their addresses.
abbrev pub irq_gets : Caps → ℕ → List SysIrq → Phase (List ℕ)
irq_gets c slot [] = record { commands = []; computed = []; cap_slot = slot }
irq_gets c slot (i ∷ irqs) =
    let cap_address = bit_or c.system_cap_address_mask slot in
    let rest = irq_gets c (slot + 1) irqs in
    record {
      commands =
          once
            (irq_control_get irq_control_cap i.irq c.root_cnode_cap cap_address c.cap_address_bits)
          ∷ rest.commands;
      computed = cap_address ∷ rest.computed;
      cap_slot = rest.cap_slot;
    }

-- The interrupt handlers of all domains; `irq_cap_addresses` is a list for each.
unfoldable pub irq_handlers : Caps → ℕ → List BuiltPd → Phase (List (List ℕ))
irq_handlers c slot [] = record { commands = []; computed = []; cap_slot = slot }
irq_handlers c slot (p ∷ ps) =
    let one = irq_gets c slot (info p).irqs in
    let rest = irq_handlers c one.cap_slot ps in
    record {
      commands = one.commands ++ rest.commands;
      computed = one.computed ∷ rest.computed;
      cap_slot = rest.cap_slot;
    }

unfoldable pub assign_asids : List BuiltPd → Result Command
unfolding repeat
assign_asids pds = do
  p ← first_of pds
  repeat (length pds) (("vspace", 1) ∷ [])
      (once (asid_pool_assign init_asid_pool_cap p.vspace.cap_addr))

-- A memory region with its pages.
pub record MrPages : Type 0 where
  pub mr : SysMemoryRegion
  pub pages : List KernelObject

-- `all_mr_by_name` and then `mr_pages`: the last region of the name.
unfoldable pub find_pages : String → List MrPages → Result MrPages
find_pages name [] = err key_error
find_pages name (m ∷ ms) = elim (find_pages name ms) [
  | ok later ↦ ok later
  | err e ↦ if str_eq name m.mr.name then ok m else err e
]

pub record PageDescriptor : Type 0 where
  pub page_cap : ℕ
  pub pd_idx : ℕ
  pub vaddr : ℕ
  pub rights : ℕ
  pub attrs : ℕ
  pub count : ℕ
  pub vaddr_incr : ℕ

-- The bits are tested for and set one by one, so that the sums are their unions.
abbrev pub map_rights : Perms → ℕ
map_rights perms =
    (if perms.readable then rights_read else 0) + (if perms.writable then rights_write else 0)

abbrev pub map_attrs : SysMap → ℕ
map_attrs mp = 2 + (if mp.perms.executable then 0 else 4) + (if mp.cached then 1 else 0)

abbrev pub descriptor_of : Caps → ℕ → ℕ → SysMap → MrPages → PageDescriptor
descriptor_of c pd_idx slot mp m = record {
  page_cap = bit_or c.system_cap_address_mask slot;
  pd_idx = pd_idx;
  vaddr = mp.vaddr;
  rights = map_rights mp.perms;
  attrs = map_attrs mp;
  count = length m.pages;
  vaddr_incr = m.mr.page_size;
}

-- The pages of one map are minted by one repeated invocation.
unfoldable pub mint_map : Caps → List MrPages → ℕ → ℕ → SysMap → Result (Phase PageDescriptor)
unfolding find_pages repeat assert_objects_adjacent
mint_map c mrs pd_idx slot mp = do
  m ← find_pages mp.mr mrs
  guard (ltb 0 (length m.pages)) assertion
  assert_objects_adjacent m.pages
  page ← first_of m.pages
  mint ←
      repeat (length m.pages) (("dest_index", 1) ∷ ("src_obj", 1) ∷ [])
        (once (mint_in_system c slot page.cap_addr (map_rights mp.perms) 0))
  ok (record {
    commands = mint ∷ [];
    computed = descriptor_of c pd_idx slot mp m;
    cap_slot = slot + length m.pages;
  })

unfoldable pub mint_maps :
    Caps → List MrPages → ℕ → ℕ → List SysMap → Result (Phase (List PageDescriptor))
mint_maps c mrs pd_idx slot [] = ok (record { commands = []; computed = []; cap_slot = slot })
mint_maps c mrs pd_idx slot (mp ∷ mps) = do
  one ← mint_map c mrs pd_idx slot mp
  rest ← mint_maps c mrs pd_idx one.cap_slot mps
  ok (record {
    commands = one.commands ++ rest.commands;
    computed = one.computed ∷ rest.computed;
    cap_slot = rest.cap_slot;
  })

-- The pages of all domains, with a list of descriptors for each.
unfoldable pub mint_pages :
    Caps → List MrPages → ℕ → ℕ → List BuiltPd → Result (Phase (List (List PageDescriptor)))
mint_pages c mrs pd_idx slot [] = ok (record { commands = []; computed = []; cap_slot = slot })
mint_pages c mrs pd_idx slot (p ∷ ps) = do
  one ← mint_maps c mrs pd_idx slot ((info p).maps ++ p.extra_maps)
  rest ← mint_pages c mrs (pd_idx + 1) one.cap_slot ps
  ok (record {
    commands = one.commands ++ rest.commands;
    computed = one.computed ∷ rest.computed;
    cap_slot = rest.cap_slot;
  })

-- The notifications of one domain with the badges of its interrupts.
abbrev pub badge_irqs : Caps → BuiltPd → ℕ → List SysIrq → Phase (List ℕ)
badge_irqs c p slot [] = record { commands = []; computed = []; cap_slot = slot }
badge_irqs c p slot (i ∷ irqs) =
    let rest = badge_irqs c p (slot + 1) irqs in
    record {
      commands =
          once (mint_in_system c slot p.notification.cap_addr rights_all (2 ^ i.id))
          ∷ rest.commands;
      computed = bit_or c.system_cap_address_mask slot ∷ rest.computed;
      cap_slot = rest.cap_slot;
    }

unfoldable pub badged_irqs : Caps → ℕ → List BuiltPd → Phase (List (List ℕ))
badged_irqs c slot [] = record { commands = []; computed = []; cap_slot = slot }
badged_irqs c slot (p ∷ ps) =
    let one = badge_irqs c p slot (info p).irqs in
    let rest = badged_irqs c one.cap_slot ps in
    record {
      commands = one.commands ++ rest.commands;
      computed = one.computed ∷ rest.computed;
      cap_slot = rest.cap_slot;
    }

abbrev pub child_id : BuiltPd → Result ℕ
child_id p = elim (info p).pd_id [ none ↦ err assertion | some id ↦ ok id ]

-- The endpoint that a domain's faults go to, and the badge that tells from whom they are.
unfoldable pub fault_target : List BuiltPd → BuiltPd → Result (KernelObject × ℕ)
unfolding find_pd
fault_target pds p = elim p.flat.parent [
  | none ↦ do ep ← endpoint_of p; ok (ep, badge_type_fault + badge_fault_root)
  | some parent ↦ do
    id ← child_id p
    root ← find_pd parent.name pds
    ep ← endpoint_of root
    ok (ep, bit_or badge_type_fault id)
]

unfoldable pub mint_faults : Caps → List BuiltPd → ℕ → List BuiltPd → Result (List Command × ℕ)
unfolding fault_target
mint_faults c pds slot [] = ok ([], slot)
mint_faults c pds slot (p ∷ ps) = do
  (ep, badge) ← fault_target pds p
  (rest, next) ← mint_faults c pds (slot + 1) ps
  ok (once (mint_in_system c slot ep.cap_addr rights_all badge) ∷ rest, next)

-- What the phases leave that put capabilities into the system capability node.
pub record SystemCaps : Type 0 where
  pub commands : List Command
  pub irq_cap_addresses : List (List ℕ)
  pub page_descriptors : List (List PageDescriptor)
  pub badged_irq_caps : List (List ℕ)
  pub badged_fault_ep : ℕ
  pub next_slot : ℕ

-- The phases, from the first slot behind the objects that were retyped.
unfoldable pub system_caps : Caps → List MrPages → ℕ → List BuiltPd → Result SystemCaps
system_caps c mrs slot pds = do
  let irqs = irq_handlers c slot pds
  asids ← assign_asids pds
  pages ← mint_pages c mrs 0 irqs.cap_slot pds
  let badged = badged_irqs c pages.cap_slot pds
  (faults, next) ← mint_faults c pds badged.cap_slot pds
  ok (record {
    commands = irqs.commands ++ asids ∷ pages.commands ++ badged.commands ++ faults;
    irq_cap_addresses = irqs.computed;
    page_descriptors = pages.computed;
    badged_irq_caps = badged.computed;
    badged_fault_ep = bit_or c.system_cap_address_mask badged.cap_slot;
    next_slot = next;
  })
