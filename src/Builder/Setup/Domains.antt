-- ===== src/Builder/Setup/Domains.antt =====
-- The repeated commands over all protection domains reach each domain with its own objects.
use mathlib.Core.Path.{ap₂}
use sel4cp.Prelude.{
  ℕ, zero, suc, ◌+◌, ◌<◌, ◌≡◌, refl, sym, ap, ◌∙◌, List, [], ◌∷◌, ◌++◌, map, arith, ok,
  ok_injective, >>=-eq-ok, length, replicate, All, length-append, length-map, ◌-◌,
}
use sel4cp.Invocation.{Command, once, repeat, domain_set, tcb_set_space}
use sel4cp.Description.{Partition}
use sel4cp.Builder.InitSystem.Batches.{range, range-append}
use sel4cp.Builder.CSpace.{Caps, BuiltPd, info, pd_cap_bits, domain_cap}
use sel4cp.Builder.CSpace.Rounds.{rounds, spaced-range, repeat-rounds}
use sel4cp.Builder.Setup.{set_domains, set_spaces}

-- The domain and the control block of each round.
abbrev domain_rounds : Command → List (ℕ × ℕ)
domain_rounds cmd = elim cmd.invocation [
  | domain_set control domain tcb ↦ map (λ t. (domain, t)) (rounds "tcb" tcb cmd)
  | _ ↦ []
]

abbrev pub all_domain_rounds : List Command → List (ℕ × ℕ)
all_domain_rounds [] = []
all_domain_rounds (cmd ∷ cmds) = domain_rounds cmd ++ all_domain_rounds cmds

-- The partition of each domain where the domains of a partition stand together, in the order of the
-- partitions.
abbrev pub grouped : List Partition → List ℕ
grouped [] = []
grouped (pt ∷ pts) = replicate pt.num_pds pt.id ++ grouped pts

-- `zip`.
abbrev pub pairs : List ℕ → List ℕ → List (ℕ × ℕ)
pairs [] ys = []
pairs (x ∷ xs) [] = []
pairs (x ∷ xs) (y ∷ ys) = (x, y) ∷ pairs xs ys

pairs-replicate :
    (n d first : ℕ) → map (λ t. (d, t)) (range first n) ≡ pairs (replicate n d) (range first n)
pairs-replicate zero d first = refl
pairs-replicate (suc n) d first = ap (λ t. (d, first) ∷ t) (pairs-replicate n d (first + 1))

pairs-append :
    (n d first : ℕ) (xs ys : List ℕ)
    → pairs (replicate n d ++ xs) (range first n ++ ys)
      ≡ pairs (replicate n d) (range first n) ++ pairs xs ys
pairs-append zero d first xs ys = refl
pairs-append (suc n) d first xs ys = ap (λ t. (d, first) ∷ t) (pairs-append n d (first + 1) xs ys)

abbrev total : List Partition → ℕ
total [] = 0
total (pt ∷ pts) = pt.num_pds + total pts

length-grouped : (pts : List Partition) → length (grouped pts) ≡ total pts
length-grouped [] = refl
length-grouped (pt ∷ pts) =
    length-append (replicate pt.num_pds pt.id) (grouped pts)
    ∙ ap₂ ◌+◌ (length-replicate pt.num_pds pt.id) (length-grouped pts)
  where
    length-replicate : (n d : ℕ) → length (replicate n d) ≡ n
    length-replicate zero d = refl
    length-replicate (suc n) d = ap suc (length-replicate n d)

map-pairs :
    (pds : List BuiltPd)
    → pairs (map (λ p. (info p).partition) pds) (map (λ p. p.tcb.cap_addr) pds)
      ≡ map (λ p. ((info p).partition, p.tcb.cap_addr)) pds
map-pairs [] = refl
map-pairs (p ∷ pds) = ap (λ t. ((info p).partition, p.tcb.cap_addr) ∷ t) (map-pairs pds)

domain_rounds-repeat :
    (n id start : ℕ) (cmd : Command)
    → 0 < n
    → repeat n (("tcb", 1) ∷ []) (once (domain_set domain_cap id start)) ≡ ok cmd
    → domain_rounds cmd ≡ map (λ t. (id, t)) (range start n)
domain_rounds-repeat n id start cmd some_pds h =
    let (kept, fields) =
      repeat-rounds n (("tcb", 1) ∷ []) (domain_set domain_cap id start) cmd some_pds h in
    rw (domain_rounds, kept, fields "tcb" start, spaced-range start n) refl

set_domains-pairs :
    (start : ℕ) (pts : List Partition) (cmds : List Command)
    → All (λ pt. 0 < pt.num_pds) pts
    → set_domains start pts ≡ ok cmds
    → all_domain_rounds cmds ≡ pairs (grouped pts) (range start (total pts))
unfolding set_domains
set_domains-pairs start [] cmds some_pds h = ap all_domain_rounds (sym (ok_injective h))
set_domains-pairs start (pt ∷ pts) cmds some_pds h =
    let (one, first, h1) =
      >>=-eq-ok (repeat pt.num_pds (("tcb", 1) ∷ []) (once (domain_set domain_cap pt.id start))) _
        h in
    let (rest, more, same) = >>=-eq-ok (set_domains (start + pt.num_pds) pts) _ h1 in
    ap all_domain_rounds (sym (ok_injective same))
    ∙ ap₂ ◌++◌
        (domain_rounds-repeat pt.num_pds pt.id start one some_pds.0 first
          ∙ pairs-replicate pt.num_pds pt.id start)
        (set_domains-pairs (start + pt.num_pds) pts rest some_pds.1 more)
    ∙ sym
        (pairs-append pt.num_pds pt.id start (grouped pts) (range (start + pt.num_pds) (total pts)))
    ∙ ap (pairs (grouped (pt ∷ pts))) (range-append start pt.num_pds (total pts))

-- Where the control blocks have consecutive capabilities from the first on, the domains stand in the
-- order of the partitions, and every partition has a domain, each control block is set to the
-- partition of its own domain, in order and once.
pub set_domains-map :
    (start : ℕ) (pts : List Partition) (pds : List BuiltPd) (cmds : List Command)
    → All (λ pt. 0 < pt.num_pds) pts
    → map (λ p. (info p).partition) pds ≡ grouped pts
    → map (λ p. p.tcb.cap_addr) pds ≡ range start (length pds)
    → set_domains start pts ≡ ok cmds
    → all_domain_rounds cmds ≡ map (λ p. ((info p).partition, p.tcb.cap_addr)) pds
set_domains-map start pts pds cmds some_pds groups tcbs h =
    let n : total pts ≡ length pds =
      sym (length-grouped pts)
      ∙ ap length (sym groups)
      ∙ length-map pds (λ p. (info p).partition) in
    set_domains-pairs start pts cmds some_pds h
    ∙ ap₂ pairs (sym groups) (ap (range start) n ∙ sym tcbs)
    ∙ map-pairs pds

-- What the rounds of the command that sets the spaces use: the control block, the endpoint for
-- faults, the capability space and the address space.
abbrev pub space_rounds : Command → List (List ℕ)
space_rounds cmd = elim cmd.invocation [
  | tcb_set_space tcb fault_ep cspace_root cspace_data vspace_root vspace_data ↦
      rounds "tcb" tcb cmd
      ∷ rounds "fault_ep" fault_ep cmd
      ∷ rounds "cspace_root" cspace_root cmd
      ∷ rounds "vspace_root" vspace_root cmd
      ∷ []
  | _ ↦ []
]

-- Objects with consecutive capabilities, from that of the first domain on.
abbrev pub AreConsecutive : (BuiltPd → ℕ) → List BuiltPd → Type 0
AreConsecutive cap [] = Unit
AreConsecutive cap (p ∷ ps) = map cap (p ∷ ps) ≡ range (cap p) (suc (length ps))

-- Where the objects of each kind have consecutive capabilities, the one command that sets the spaces
-- gives each domain's control block the domain's own capability space and address space, and the
-- endpoints for faults one behind the other.
pub set_spaces-rounds :
    (c : Caps) (badged_fault_ep : ℕ) (pds : List BuiltPd) (cmd : Command)
    → AreConsecutive (λ p. p.tcb.cap_addr) pds
    → AreConsecutive (λ p. p.cnode.cap_addr) pds
    → AreConsecutive (λ p. p.vspace.cap_addr) pds
    → set_spaces c badged_fault_ep pds ≡ ok cmd
    → space_rounds cmd
      ≡ map (λ p. p.tcb.cap_addr) pds
        ∷ range badged_fault_ep (length pds)
        ∷ map (λ p. p.cnode.cap_addr) pds
        ∷ map (λ p. p.vspace.cap_addr) pds
        ∷ []
unfolding set_spaces
set_spaces-rounds c ep [] cmd tcbs cnodes vspaces h = cc
set_spaces-rounds c ep (p ∷ ps) cmd tcbs cnodes vspaces h =
    let n = suc (length ps) in
    let (kept, fields) =
      repeat-rounds n (("tcb", 1) ∷ ("fault_ep", 1) ∷ ("cspace_root", 1) ∷ ("vspace_root", 1) ∷ [])
        (tcb_set_space p.tcb.cap_addr ep p.cnode.cap_addr (c.cap_address_bits - pd_cap_bits)
          p.vspace.cap_addr 0)
        cmd (omega arith) h in
    rw
      (
        kept,
        fields "tcb" p.tcb.cap_addr,
        fields "fault_ep" ep,
        fields "cspace_root" p.cnode.cap_addr,
        fields "vspace_root" p.vspace.cap_addr,
        spaced-range p.tcb.cap_addr n,
        spaced-range ep n,
        spaced-range p.cnode.cap_addr n,
        spaced-range p.vspace.cap_addr n,
        tcbs,
        cnodes,
        vspaces,
      )
      refl
