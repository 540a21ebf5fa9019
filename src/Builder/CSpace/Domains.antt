-- ===== src/Builder/CSpace/Domains.antt =====
-- The capabilities that every protection domain gets in its own capability space: its input, its
-- reply object, its address space and the handlers of its interrupts.
use sel4cp.Prelude.{
  ℕ, ◌+◌, List, [], ◌∷◌, ◌++◌, Result, ok, assertion, guard, ◌>>=◌, ◌>>◌, ltb, length,
  if◌then◌else◌,
}
use sel4cp.Invocation.{Command, once, repeat}
use sel4cp.Description.{SysIrq}
use sel4cp.Builder.Layout.{pd_cap_size}
use sel4cp.Builder.CSpace.{
  Caps, BuiltPd, info, needs_ep, endpoint_of, first_of, mint_in_pd, input_cap_idx, reply_cap_idx,
  vspace_cap_idx, base_irq_cap,
}

-- Each domain's endpoint, or its notification where it has none.
unfoldable pub mint_inputs : Caps → List BuiltPd → Result (List Command)
mint_inputs c [] = ok []
mint_inputs c (p ∷ ps) = do
  obj ← (if needs_ep p then endpoint_of p else ok p.notification)
  rest ← mint_inputs c ps
  ok (once (mint_in_pd c p input_cap_idx obj.cap_addr 0) ∷ rest)

-- One repeated invocation for all domains, from the objects of the first.
unfoldable pub mint_replies : Caps → List BuiltPd → Result Command
unfolding repeat
mint_replies c pds = do
  p ← first_of pds
  repeat (length pds) (("cnode", 1) ∷ ("src_obj", 1) ∷ [])
      (once (mint_in_pd c p reply_cap_idx p.reply.cap_addr 1))

unfoldable pub mint_vspaces : Caps → List BuiltPd → Result Command
unfolding repeat
mint_vspaces c pds = do
  p ← first_of pds
  repeat (length pds) (("cnode", 1) ∷ ("src_obj", 1) ∷ [])
      (once (mint_in_pd c p vspace_cap_idx p.vspace.cap_addr 0))

-- The handlers of one domain's interrupts.
unfoldable pub mint_handlers : Caps → BuiltPd → List SysIrq → List ℕ → Result (List Command)
mint_handlers c p [] caps = ok []
mint_handlers c p (i ∷ irqs) [] = ok []
mint_handlers c p (i ∷ irqs) (cap ∷ caps) = do
  guard (ltb (base_irq_cap + i.id) pd_cap_size) assertion
  rest ← mint_handlers c p irqs caps
  ok (once (mint_in_pd c p (base_irq_cap + i.id) cap 0) ∷ rest)

unfoldable pub mint_all_handlers : Caps → List BuiltPd → List (List ℕ) → Result (List Command)
unfolding mint_handlers
mint_all_handlers c [] caps = ok []
mint_all_handlers c (p ∷ ps) [] = ok []
mint_all_handlers c (p ∷ ps) (one ∷ caps) = do
  first ← mint_handlers c p (info p).irqs one
  rest ← mint_all_handlers c ps caps
  ok (first ++ rest)
