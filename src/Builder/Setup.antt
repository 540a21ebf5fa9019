-- ===== src/Builder/Setup.antt =====
-- What the builder of tool/sel4coreplat/__main__.py has done once all capabilities are minted: the
-- interrupts are bound, the paging structures and pages mapped, and the threads set up and started.
pub mod Mapped
pub mod Domains
use Prim.Native.String.{String, ◌++◌ as str_append}
use text.Mathlib.Text.{◌==◌ as str_eq}
use sel4cp.Prelude.{
  ℕ, ◌+◌, ◌-◌, ◌*◌, Bool, true, false, ◌&&◌, List, [], ◌∷◌, ◌++◌, Option, none, some, Result, ok,
  err, key_error, index_error, assertion, guard, ◌>>=◌, ◌>>◌, ltb, ◌==◌, get_elem?, length,
  if◌then◌else◌, map,
}
use sel4cp.Invocation.{
  Invocation, Command, once, repeat, irq_handler_set_notification, page_upper_directory_map,
  page_directory_map, page_table_map, page_map, sched_control_configure_flags,
  tcb_set_timeout_endpoint, tcb_set_sched_params, tcb_set_space, tcb_set_ipc_buffer,
  tcb_write_registers, tcb_bind_notification, domain_set, tcb_resume, tcb_suspend,
}
use sel4cp.Invocation.Registers.{no_regs}
use sel4cp.Description.{ProtectionDomain, Partition, SysMap}
use sel4cp.Builder.InitSystem.{KernelObject}
use sel4cp.Builder.Layout.{vspace_ipcbuff_size}
use sel4cp.Builder.CSpace.{
  Caps, BuiltPd, info, pd_name, first_of, pd_cap_bits, init_tcb_cap, domain_cap,
}
use sel4cp.Builder.CSpace.System.{PageDescriptor}
use sel4cp.Builder.CSpace.Threads.{num_spawnable, object_at}

-- `zip` of the handlers and the badged notifications of one domain.
abbrev set_notifications : List ℕ → List ℕ → List Command
set_notifications [] badged = []
set_notifications (h ∷ hs) [] = []
set_notifications (h ∷ hs) (b ∷ bs) =
    once (irq_handler_set_notification h b) ∷ set_notifications hs bs

unfoldable pub set_all_notifications : List (List ℕ) → List (List ℕ) → List Command
set_all_notifications [] badged = []
set_all_notifications (h ∷ hs) [] = []
set_all_notifications (h ∷ hs) (b ∷ bs) = set_notifications h b ++ set_all_notifications hs bs

-- `vspace_objects[pd_idx]`.
abbrev pub vspace_at : List BuiltPd → ℕ → Result ℕ
vspace_at pds i = elim (get_elem? pds i) [ none ↦ err index_error | some p ↦ ok p.vspace.cap_addr ]

abbrev default_vmattributes : ℕ
default_vmattributes = 3

-- The structures of one level, each with the domain and the address it is for.
unfoldable pub map_level :
    (ℕ → ℕ → ℕ → ℕ → Invocation)
    → List BuiltPd
    → List (ℕ × ℕ)
    → List KernelObject
    → Result (List Command)
map_level map_cls pds [] objects = ok []
map_level map_cls pds (d ∷ ds) [] = ok []
map_level map_cls pds ((pd_idx, vaddr) ∷ ds) (o ∷ os) = do
  vspace ← vspace_at pds pd_idx
  rest ← map_level map_cls pds ds os
  ok (once (map_cls o.cap_addr vspace vaddr default_vmattributes) ∷ rest)

-- The pages of one descriptor are mapped by one repeated invocation.
unfoldable pub map_page : List BuiltPd → PageDescriptor → Result Command
unfolding repeat
map_page pds d = do
  vspace ← vspace_at pds d.pd_idx
  repeat d.count (("page", 1) ∷ ("vaddr", d.vaddr_incr) ∷ [])
      (once (page_map d.page_cap vspace d.vaddr d.rights d.attrs))

unfoldable pub map_pages : List BuiltPd → List PageDescriptor → Result (List Command)
unfolding map_page
map_pages pds [] = ok []
map_pages pds (d ∷ ds) = do one ← map_page pds d; rest ← map_pages pds ds; ok (one ∷ rest)

-- The descriptors of all domains, in one list.
abbrev pub page_descriptors : List (List PageDescriptor) → List PageDescriptor
page_descriptors [] = []
page_descriptors (ds ∷ dss) = ds ++ page_descriptors dss

-- The parent's setting for timeouts; only child domains have one.
abbrev handles_timeouts : BuiltPd → Bool
handles_timeouts p = elim p.flat.parent [ none ↦ false | some parent ↦ parent.timeouts ]

-- The scheduling contexts, and the timeout endpoints: `idx` counts the domains from 0.
unfoldable pub configure : Caps → ℕ → ℕ → List BuiltPd → List Command
configure c badged_fault_ep idx [] = []
configure c badged_fault_ep idx (p ∷ ps) =
    once (
        sched_control_configure_flags c.schedcontrol_cap p.schedcontext.cap_addr (info p).budget
          (info p).period 0 0 0)
      ∷ (if handles_timeouts p
          then once (tcb_set_timeout_endpoint p.tcb.cap_addr (badged_fault_ep + idx)) ∷ []
          else [])
    ++ configure c badged_fault_ep (idx + 1) ps

unfoldable pub set_sched_params : List BuiltPd → List Command
set_sched_params [] = []
set_sched_params (p ∷ ps) =
    once (
      tcb_set_sched_params p.tcb.cap_addr init_tcb_cap (info p).priority (info p).priority
        p.schedcontext.cap_addr 0)
    ∷ set_sched_params ps

unfoldable pub set_spaces : Caps → ℕ → List BuiltPd → Result Command
unfolding repeat
set_spaces c badged_fault_ep pds = do
  p ← first_of pds
  repeat (length pds) (("tcb", 1) ∷ ("fault_ep", 1) ∷ ("cspace_root", 1) ∷ ("vspace_root", 1) ∷ [])
      (once (
        tcb_set_space p.tcb.cap_addr badged_fault_ep p.cnode.cap_addr
          (c.cap_address_bits - pd_cap_bits) p.vspace.cap_addr 0))

-- `ipc_buffers_by_pd[pd]`: the last map of the domain that is of its message buffers, with the maps
-- and their descriptors side by side.
unfoldable pub find_buffers : String → List SysMap → List PageDescriptor → Result (ℕ × ℕ)
find_buffers region [] ds = err key_error
find_buffers region (m ∷ ms) [] = err key_error
find_buffers region (m ∷ ms) (d ∷ ds) = elim (find_buffers region ms ds) [
  | ok later ↦ ok later
  | err e ↦ if str_eq m.mr region then ok (d.page_cap, m.vaddr) else err e
]

-- The buffers that lie one behind the other: one for each thread of the parent, where it has any.
abbrev pub num_buffers : BuiltPd → ℕ
num_buffers p = elim p.flat.parent [
  | none ↦ 1
  | some parent ↦ if ltb 0 parent.nthreads then parent.nthreads else 1
]

abbrev buffers_region : BuiltPd → String
buffers_region p = str_append (pd_name p) ": IPC Buffers"

abbrev maps_of : BuiltPd → List SysMap
maps_of p = (info p).maps ++ p.extra_maps

-- The descriptors of each domain are a list of their own.
unfoldable pub set_buffers : List BuiltPd → List (List PageDescriptor) → Result (List Command)
unfolding find_buffers repeat
set_buffers [] descriptors = ok []
set_buffers (p ∷ ps) [] = err key_error
set_buffers (p ∷ ps) (ds ∷ descriptors) = do
  (page_cap, vaddr) ← find_buffers (buffers_region p) (maps_of p) ds
  one ←
      repeat (num_buffers p) (("buffer", vspace_ipcbuff_size) ∷ ("buffer_frame", 1) ∷ [])
        (once (tcb_set_ipc_buffer p.tcb.cap_addr vaddr page_cap))
  rest ← set_buffers ps descriptors
  ok (one ∷ rest)

-- The entry points of the domains' programs are a parameter of the list.
unfoldable pub write_registers : List BuiltPd → List ℕ → List Command
write_registers [] entries = []
write_registers (p ∷ ps) [] = []
write_registers (p ∷ ps) (entry ∷ entries) =
    once (
      tcb_write_registers p.tcb.cap_addr false 0
        (record no_regs { pc = some entry; x0 = (info p).pd_id; x1 = some 1 }))
    ∷ write_registers ps entries

-- One repeated invocation for all control blocks, from the first.
unfoldable pub bind_notifications : List BuiltPd → Result Command
unfolding repeat
bind_notifications pds = do
  p ← first_of pds
  repeat (length pds) (("tcb", 1) ∷ ("notification", 1) ∷ [])
      (once (tcb_bind_notification p.tcb.cap_addr p.notification.cap_addr))

-- The partitions one behind the other, from the control block on.
unfoldable pub set_domains : ℕ → List Partition → Result (List Command)
unfolding repeat
set_domains start_tcb [] = ok []
set_domains start_tcb (pt ∷ pts) = do
  one ← repeat pt.num_pds (("tcb", 1) ∷ []) (once (domain_set domain_cap pt.id start_tcb))
  rest ← set_domains (start_tcb + pt.num_pds) pts
  ok (one ∷ rest)

-- The threads of the domains that have any get their domain's partition.
unfoldable pub set_thread_domains : List BuiltPd → Result (List Command)
unfolding repeat
set_thread_domains [] = ok []
set_thread_domains (p ∷ ps) = do
  one ←
      (if ltb 0 (info p).nthreads
        then (do
          tcb ← object_at p.thread_objects.threads_tcbs (info p).num_child_pds
          cmd ←
              repeat (num_spawnable p) (("tcb", 1) ∷ [])
                (once (domain_set domain_cap (info p).partition tcb.cap_addr))
          ok (cmd ∷ []))
        else ok [])
  rest ← set_thread_domains ps
  ok (one ++ rest)

unfoldable pub resume_all : List BuiltPd → Result (List Command)
unfolding repeat
resume_all pds = do
  p ← first_of pds
  resume ← repeat (length pds) (("tcb", 1) ∷ []) (once (tcb_resume p.tcb.cap_addr))
  ok (resume ∷ once (tcb_suspend init_tcb_cap) ∷ [])
