-- ===== src/Builder/CSpace/Threads.antt =====
-- The capabilities that a root protection domain gets of its child domains and of the threads that it
-- may spawn, and those that the threads get.
use text.Mathlib.Text.{◌==◌ as str_eq}
use sel4cp.Prelude.{
  ℕ, ◌+◌, ◌-◌, bit_or, Bool, true, false, List, [], ◌∷◌, ◌++◌, none, some, Result, ok, err,
  type_error, attribute_error, index_error, ◌>>=◌, ltb, get_elem?, if◌then◌else◌,
}
use sel4cp.Invocation.{
  Command, once, repeat, cnode_mint, tcb_set_cspace, tcb_set_fault_handler, sched_context_bind,
}
use sel4cp.Builder.InitSystem.{KernelObject}
use sel4cp.Builder.Layout.{
  base_tcb_cap, get_thread_sc_offset, get_thread_cspace_offset, get_thread_reply_offset,
  get_pd_vspace_offset,
}
use sel4cp.Builder.CSpace.{
  Caps, BuiltPd, info, pd_name, mint_in_pd, copy_in_pd, mint_in_system, root_pd_ep_cap_idx,
  self_cnode_cap_idx, self_tcb_cap_idx, schedcontrol_cap_idx, empty_thread_cap_bits, rights_all,
  badge_type_fault, badge_type_root_ppc,
}

-- `maybe_child_pd.parent is pd`: the parents are the domains of the list, which differ in their names.
abbrev pub is_child_of : BuiltPd → BuiltPd → Bool
is_child_of q p = elim q.flat.parent [ none ↦ false | some parent ↦ str_eq parent.name (pd_name p) ]

-- The number of the child; `None` is no operand of the sums.
abbrev child_number : BuiltPd → Result ℕ
child_number q = elim (info q).pd_id [ none ↦ err type_error | some id ↦ ok id ]

-- `pd_endpoint_objects.get(pd)`, whose address is asked for.
abbrev pub root_endpoint : BuiltPd → Result KernelObject
root_endpoint p = elim p.endpoint [ none ↦ err attribute_error | some ep ↦ ok ep ]

-- The endpoint for calls to the root domain, where it accepts them, in the child's space.
unfoldable pub mint_root_ppc : Caps → BuiltPd → BuiltPd → ℕ → Result (List Command)
mint_root_ppc c p q id = elim (info p).root_ppc [
  | false ↦ ok []
  | true ↦ do
    ep ← root_endpoint p
    ok (once (mint_in_pd c q root_pd_ep_cap_idx ep.cap_addr (bit_or badge_type_root_ppc id)) ∷ [])
]

-- The child's objects that a root domain with threads gets besides its control block.
unfoldable pub mint_child_objects : Caps → BuiltPd → BuiltPd → ℕ → Result (List Command)
unfolding get_thread_sc_offset get_thread_cspace_offset get_thread_reply_offset
mint_child_objects c p q id = elim (ltb 0 (info p).nthreads) [
  | false ↦ ok []
  | true ↦ do
    sc ← get_thread_sc_offset (info p).nthreads id
    cspace ← get_thread_cspace_offset (info p).nthreads id
    reply ← get_thread_reply_offset (info p).nthreads id
    ok (
        once (mint_in_pd c p sc q.schedcontext.cap_addr 0)
        ∷ once (mint_in_pd c p cspace q.cnode.cap_addr 0)
        ∷ once (copy_in_pd c p reply q.reply.cap_addr)
        ∷ [])
]

unfoldable pub mint_child : Caps → BuiltPd → BuiltPd → Result (List Command)
unfolding mint_root_ppc mint_child_objects
mint_child c p q = do
  id ← child_number q
  ppc ← mint_root_ppc c p q id
  objects ← mint_child_objects c p q id
  ok (ppc ++ once (mint_in_pd c p (base_tcb_cap + id) q.tcb.cap_addr 0) ∷ objects)

unfoldable pub mint_children : Caps → BuiltPd → List BuiltPd → Result (List Command)
unfolding mint_child
mint_children c p [] = ok []
mint_children c p (q ∷ qs) = do
  one ← (if is_child_of q p then mint_child c p q else ok [])
  rest ← mint_children c p qs
  ok (one ++ rest)

-- An index out of range raises.
abbrev pub object_at : List KernelObject → ℕ → Result KernelObject
object_at os i = elim (get_elem? os i) [ none ↦ err index_error | some o ↦ ok o ]

-- The threads that are not child domains; there is one of them behind the first index wherever the
-- objects are indexed without an error.
abbrev pub num_spawnable : BuiltPd → ℕ
num_spawnable p = (info p).nthreads - (info p).num_child_pds

-- The threads' own spaces: the endpoint for calls to the root domain, where it accepts them.
unfoldable pub thread_spaces : Caps → BuiltPd → Result (List Command)
unfolding repeat
thread_spaces c p = elim (info p).root_ppc [
  | false ↦ ok []
  | true ↦ do
    let first = (info p).num_child_pds
    let badge = bit_or badge_type_root_ppc first
    cnode ← object_at p.thread_objects.threads_cnodes first
    ep ← root_endpoint p
    mint ← repeat (num_spawnable p) (("cnode", 1) ∷ ("badge", 1) ∷ []) (
        once (
          cnode_mint cnode.cap_addr root_pd_ep_cap_idx empty_thread_cap_bits c.root_cnode_cap
            ep.cap_addr c.cap_address_bits rights_all badge))
    tcb ← object_at p.thread_objects.threads_tcbs first
    space ← repeat (num_spawnable p) (("tcb", 1) ∷ ("cspace_root", 1) ∷ []) (
        once
          (tcb_set_cspace tcb.cap_addr cnode.cap_addr (c.cap_address_bits - empty_thread_cap_bits)))
    ok (mint ∷ space ∷ [])
]

-- The endpoints of the threads' faults, in slots of the system capability node.
unfoldable pub thread_faults : Caps → BuiltPd → ℕ → Result (List Command)
unfolding repeat
thread_faults c p slot = do
  let first = (info p).num_child_pds
  ep ← root_endpoint p
  mint ←
      repeat (num_spawnable p) (("dest_index", 1) ∷ ("badge", 1) ∷ [])
        (once (mint_in_system c slot ep.cap_addr rights_all (bit_or badge_type_fault first)))
  tcb ← object_at p.thread_objects.threads_tcbs first
  handler ←
      repeat (num_spawnable p) (("tcb", 1) ∷ ("fault_ep", 1) ∷ [])
        (once (tcb_set_fault_handler tcb.cap_addr (bit_or c.system_cap_address_mask slot)))
  ok (mint ∷ handler ∷ [])

-- A capability of each thread in consecutive slots of the root domain.
unfoldable pub mint_of_threads : Caps → BuiltPd → ℕ → KernelObject → Result Command
unfolding repeat
mint_of_threads c p idx object =
    repeat (num_spawnable p) (("dest_index", 1) ∷ ("src_obj", 1) ∷ [])
      (once (mint_in_pd c p idx object.cap_addr 0))

-- The threads' objects in the root domain, and the binding of their scheduling contexts.
unfoldable pub thread_objects_of : Caps → BuiltPd → Result (List Command)
unfolding mint_of_threads repeat get_thread_sc_offset get_thread_cspace_offset
thread_objects_of c p = do
  let first = (info p).num_child_pds
  tcb ← object_at p.thread_objects.threads_tcbs first
  tcbs ← mint_of_threads c p (base_tcb_cap + first) tcb
  sc ← object_at p.thread_objects.threads_sc first
  sc_slot ← get_thread_sc_offset (info p).nthreads first
  scs ← mint_of_threads c p sc_slot sc
  bind ←
      repeat (num_spawnable p) (("schedcontext", 1) ∷ ("tcb", 1) ∷ [])
        (once (sched_context_bind sc.cap_addr tcb.cap_addr))
  cnode ← object_at p.thread_objects.threads_cnodes first
  cspace_slot ← get_thread_cspace_offset (info p).nthreads first
  cspaces ← mint_of_threads c p cspace_slot cnode
  ok (tcbs ∷ scs ∷ bind ∷ cspaces ∷ [])

-- Copies for the root domain: of its own objects, of the threads' reply objects and of the control
-- over scheduling.
unfoldable pub root_copies : Caps → BuiltPd → Result (List Command)
unfolding repeat get_thread_reply_offset
root_copies c p = do
  let first = (info p).num_child_pds
  reply ← object_at p.thread_objects.threads_replies first
  reply_slot ← get_thread_reply_offset (info p).nthreads first
  replies ←
      repeat (num_spawnable p) (("dest_index", 1) ∷ ("src_obj", 1) ∷ [])
        (once (copy_in_pd c p reply_slot reply.cap_addr))
  ok (
      once (copy_in_pd c p self_cnode_cap_idx p.cnode.cap_addr)
      ∷ once (copy_in_pd c p self_tcb_cap_idx p.tcb.cap_addr)
      ∷ replies
      ∷ once (copy_in_pd c p schedcontrol_cap_idx c.schedcontrol_cap)
      ∷ [])

-- The address spaces of the child domains.
unfoldable pub mint_child_vspaces : Caps → BuiltPd → List BuiltPd → Result (List Command)
unfolding get_pd_vspace_offset
mint_child_vspaces c p [] = ok []
mint_child_vspaces c p (q ∷ qs) = do
  one ←
      (if is_child_of q p
        then (do
          id ← child_number q
          idx ← get_pd_vspace_offset (info p).nthreads id
          ok (once (mint_in_pd c p idx q.vspace.cap_addr 0) ∷ []))
        else ok [])
  rest ← mint_child_vspaces c p qs
  ok (one ++ rest)

-- What a domain with threads gets besides; the next free slot of the system capability node.
unfoldable pub threads_of : Caps → List BuiltPd → BuiltPd → ℕ → Result (List Command × ℕ)
unfolding thread_spaces thread_faults thread_objects_of root_copies mint_child_vspaces
threads_of c pds p slot = elim (ltb 0 (info p).nthreads) [
  | false ↦ ok ([], slot)
  | true ↦ do
    spaces ← thread_spaces c p
    faults ← thread_faults c p slot
    objects ← thread_objects_of c p
    copies ← root_copies c p
    vspaces ← mint_child_vspaces c p pds
    ok (spaces ++ faults ++ objects ++ copies ++ vspaces, slot + num_spawnable p)
]

unfoldable pub mint_roots : Caps → List BuiltPd → ℕ → List BuiltPd → Result (List Command × ℕ)
unfolding mint_children threads_of
mint_roots c pds slot [] = ok ([], slot)
mint_roots c pds slot (p ∷ ps) = do
  children ← mint_children c p pds
  (threads, next) ← threads_of c pds p slot
  (rest, last) ← mint_roots c pds next ps
  ok (children ++ threads ++ rest, last)
