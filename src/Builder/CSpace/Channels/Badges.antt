-- ===== src/Builder/CSpace/Channels/Badges.antt =====
-- No notification or endpoint is handed out twice with one badge, by the interrupts and the channels:
-- a receiver can tell the senders apart.
use text.Mathlib.Text.{◌==◌ as str_eq}
use text.Mathlib.TextEquality.{eq_iff}
use Prim.Native.String.{String}
use sel4cp.Prelude.{
  ℕ, ◌+◌, ◌*◌, ◌^◌, ◌<◌, ◌≡◌, ◌≢◌, suc, bit_or, refl, sym, ap, subst, ◌∙◌, List, [], ◌∷◌, ◌++◌, map,
  ok, Bool-cases, inl, inr, ◌⊎◌, All, All-imp, Pairwise, Pairwise-append, Pairwise-append_inv,
  arith, some, ltb,
}
use sel4cp.Bits.{bit_or-disjoint, pow_double, pow_pos}
use sel4cp.Words.Position.{pow_mono}
use sel4cp.Invocation.{Command, cnode_mint}
use sel4cp.Description.{Channel, SysIrq}
use sel4cp.Description.Ends.{End, channel_ends, irq_ends}
use sel4cp.Builder.InitSystem.{KernelObject}
use sel4cp.Builder.CSpace.{Caps, BuiltPd, info, pd_name, find_pd, badge_type_ppc}
use sel4cp.Builder.CSpace.System.{badged_irqs, badge_irqs}
use sel4cp.Builder.CSpace.Channels.{mint_channel, mint_channels}
use sel4cp.Builder.CSpace.Channels.Ends.{
  keys_of, keys_of-append, StandFor, find_pd-apart, mint_channels-Pairwise, mint_channels-StandFor,
}
use sel4cp.Builder.CSpace.Channels.Inverted.{
  AtMostOne, EndpointMint, one_channel_lem, mint_channel-eq-ok,
}

-- The object that a command mints a capability of, and the badge.
abbrev pub minted_badge : Command → List (ℕ × ℕ)
minted_badge cmd = elim cmd.invocation [
  | cnode_mint cnode idx depth root obj src_depth rights badge ↦ (obj, badge) ∷ []
  | _ ↦ []
]

-- Two domains have different notifications, and different endpoints where they have endpoints.
abbrev OwnInputs : BuiltPd → BuiltPd → Type 0
OwnInputs p q =
    (p.notification.cap_addr ≢ q.notification.cap_addr)
    × ((e f : KernelObject) → p.endpoint ≡ some e → q.endpoint ≡ some f → e.cap_addr ≢ f.cap_addr)

abbrev pub HaveOwnInputs : List BuiltPd → Type 0
HaveOwnInputs pds = Pairwise OwnInputs pds

OwnInputs-flip : (p q : BuiltPd) → OwnInputs p q → OwnInputs q p
OwnInputs-flip p q h = ((λ s. h.0 (sym s)), (λ e f he hf s. h.1 f e hf he (sym s)))

pow_injective : (j k : ℕ) → 2 ^ j ≡ 2 ^ k → j ≡ k
pow_injective j k h = elim (Bool-cases (ltb j k)) [
  | inl less ↦
      let m = pow_mono (suc j) k (ground arith) in omega (arith, m, pow_double j, pow_pos j, h)
  | inr at_least ↦ elim (Bool-cases (ltb k j)) [
    | inl more ↦
        let m = pow_mono (suc k) j (ground arith) in omega (arith, m, pow_double k, pow_pos k, h)
    | inr same ↦ ground arith
  ]
]

ppc_sum : (n : ℕ) → n < 63 → bit_or badge_type_ppc n ≡ 2 * 2 ^ 62 + n
ppc_sum n h = bit_or-disjoint 62 2 n (omega arith)

-- A notification's badge is below an endpoint's.
kinds_apart : (m n : ℕ) → m < 63 → n < 63 → 2 ^ m ≢ bit_or badge_type_ppc n
kinds_apart m n hm hn same =
    let e = ppc_sum n hn in let l = pow_mono m 62 (omega arith) in omega (arith, e, l, same)

module _ (pds : List BuiltPd) where
  abbrev Signals : BuiltPd → End → ℕ × ℕ → Type 0
  Signals p e k = k ≡ (p.notification.cap_addr, 2 ^ e.1)

  abbrev Calls : BuiltPd → End → ℕ × ℕ → Type 0
  Calls p e k =
      (ep : KernelObject) × (p.endpoint ≡ some ep) × (k ≡ (ep.cap_addr, bit_or badge_type_ppc e.1))

  abbrev BadgeAt : End → ℕ × ℕ → Type 0
  BadgeAt e k =
      (p : BuiltPd) × (find_pd e.0 pds ≡ ok p) × (e.1 < 63) × (Signals p e k ⊎ Calls p e k)

  -- The same object is handed out by one domain only, the same badge for one identifier only.
  same_object :
      (p q : BuiltPd) (d e : End) (k l : ℕ × ℕ)
      → d.1 < 63
      → e.1 < 63
      → Signals p d k ⊎ Calls p d k
      → Signals q e l ⊎ Calls q e l
      → k ≡ l
      → (¬ OwnInputs p q) × (d.1 ≡ e.1)
  same_object p q d e k l hd he (inl a) (inl b) same =
      let both : ◌≡◌ {A = ℕ × ℕ} (p.notification.cap_addr, 2 ^ d.1)
          (q.notification.cap_addr, 2 ^ e.1) =
        sym a ∙ same ∙ b in
      ((λ own. own.0 (ap (λ t. t.0) both)), pow_injective d.1 e.1 (ap (λ t. t.1) both))
  same_object p q d e k l hd he (inl a) (inr (f, _, b)) same =
      absurd (kinds_apart d.1 e.1 hd he (ap (λ t. t.1) (sym a ∙ same ∙ b)))
  same_object p q d e k l hd he (inr (f, _, a)) (inl b) same =
      absurd (kinds_apart e.1 d.1 he hd (ap (λ t. t.1) (sym b ∙ sym same ∙ a)))
  same_object p q d e k l hd he (inr (f, hf, a)) (inr (g, hg, b)) same =
      let both : ◌≡◌ {A = ℕ × ℕ} (f.cap_addr, bit_or badge_type_ppc d.1)
          (g.cap_addr, bit_or badge_type_ppc e.1) =
        sym a ∙ same ∙ b in
      let badge = ap (λ t. t.1) both in
      (
        (λ own. own.1 f g hf hg (ap (λ t. t.0) both)),
        omega (arith, badge, ppc_sum d.1 hd, ppc_sum e.1 he),
      )

  BadgeAt-apart :
      HaveOwnInputs pds → (d e : End) (k l : ℕ × ℕ) → d ≢ e → BadgeAt d k → BadgeAt e l → k ≢ l
  BadgeAt-apart own d e k l ne (p, found_p, small_d, hk) (q, found_q, small_e, hl) same =
      let (shared, number) = same_object p q d e k l small_d small_e hk hl same in
      elim (Bool-cases (str_eq d.0 e.0)) [
        | inl one ↦ let names = (eq_iff d.0 e.0).0 one in ne cc
        | inr two ↦ shared (
            find_pd-apart OwnInputs pds d.0 e.0 p q OwnInputs-flip own found_p found_q
              (λ names. let yes = (eq_iff d.0 e.0).1 names in cc))
      ]

  badge_of-EndpointMint :
      (c : Caps) (from to : BuiltPd) (from_id to_id : ℕ) (cmds : List Command)
      → EndpointMint c from from_id to to_id cmds
      → AtMostOne (Calls to ("", to_id)) (keys_of minted_badge cmds)
  badge_of-EndpointMint c from to from_id to_id cmds (inl e) = inl (rw e refl)
  badge_of-EndpointMint c from to from_id to_id cmds (inr (ep, given, e)) =
      inr ((ep.cap_addr, bit_or badge_type_ppc to_id), rw e refl, (ep, given, refl))

  -- The badges of one end are different for its notification and its endpoint.
  one_end :
      (p : BuiltPd) (name : String) (n : ℕ) (k : ℕ × ℕ)
      → find_pd name pds ≡ ok p
      → n < 63
      → Calls p ("", n) k
      → BadgeAt (name, n) k × ((p.notification.cap_addr, 2 ^ n) ≢ k)
  one_end p name n k found small (ep, given, e) = (
    (p, found, small, inr (ep, given, e)),
    λ s. kinds_apart n n small small (ap (λ t. t.1) (s ∙ e)),
  )

  module _ (c : Caps) (own : HaveOwnInputs pds) where
    one_channel :
        (ch : Channel) (cmds : List Command)
        → ch.id_a < 63
        → ch.id_b < 63
        → mint_channel c pds ch ≡ ok cmds
        → let a : End = (ch.pd_a, ch.id_a) in
          let b : End = (ch.pd_b, ch.id_b) in
          (a ≢ b → Pairwise (λ k l. k ≢ l) (keys_of minted_badge cmds))
          × StandFor BadgeAt (λ e. (e ≡ a) ⊎ (e ≡ b)) (keys_of minted_badge cmds)
    one_channel ch cmds ha hb h =
        let (p, q, ep_a, ep_b, found_p, found_q, mint_a, mint_b, same) =
          mint_channel-eq-ok c pds ch h in
        let a : End = (ch.pd_a, ch.id_a) in
        let b : End = (ch.pd_b, ch.id_b) in
        subst
          (λ t.
            (a ≢ b → Pairwise (λ k l. k ≢ l) (keys_of minted_badge t))
            × StandFor BadgeAt (λ e. (e ≡ a) ⊎ (e ≡ b)) (keys_of minted_badge t))
          same
          (rw (keys_of-append minted_badge ep_a ep_b) (
            let (pairs, stand) =
              one_channel_lem BadgeAt (λ e. (e ≡ a) ⊎ (e ≡ b)) (BadgeAt-apart own) b a
                (Calls q ("", ch.id_b)) (Calls p ("", ch.id_a))
                (q.notification.cap_addr, 2 ^ ch.id_b) (p.notification.cap_addr, 2 ^ ch.id_a)
                (keys_of minted_badge ep_a) (keys_of minted_badge ep_b) (inr refl, inl refl)
                ((q, found_q, hb, inl refl), (p, found_p, ha, inl refl))
                (λ k. one_end q ch.pd_b ch.id_b k found_q hb)
                (λ k. one_end p ch.pd_a ch.id_a k found_p ha)
                (badge_of-EndpointMint c p q ch.id_a ch.id_b ep_a mint_a)
                (badge_of-EndpointMint c q p ch.id_b ch.id_a ep_b mint_b) in
            ((λ ne. pairs (λ s. ne (sym s))), stand)))

  -- The items stand for the ends one by one.
  abbrev Matched : List End → List (ℕ × ℕ) → Type 0
  Matched [] [] = Unit
  Matched (e ∷ es) (k ∷ ks) = BadgeAt e k × Matched es ks
  Matched [] (k ∷ ks) = ⊥
  Matched (e ∷ es) [] = ⊥

  Matched-append :
      (es fs : List End) (ks ls : List (ℕ × ℕ))
      → Matched es ks
      → Matched fs ls
      → Matched (es ++ fs) (ks ++ ls)
  Matched-append [] fs [] ls h g = g
  Matched-append [] fs (k ∷ ks) ls h g = absurd h
  Matched-append (e ∷ es) fs [] ls h g = absurd h
  Matched-append (e ∷ es) fs (k ∷ ks) ls h g = (h.0, Matched-append es fs ks ls h.1 g)

  Matched-StandFor :
      (P : End → Type 0) (es : List End) (ks : List (ℕ × ℕ))
      → Matched es ks
      → All P es
      → StandFor BadgeAt P ks
  Matched-StandFor P [] [] h p = tt
  Matched-StandFor P [] (k ∷ ks) h p = absurd h
  Matched-StandFor P (e ∷ es) [] h p = absurd h
  Matched-StandFor P (e ∷ es) (k ∷ ks) h p = ((e, p.0, h.0), Matched-StandFor P es ks h.1 p.1)

  -- Interrupts of domains that are found under their names.
  irqs-Matched :
      (c : Caps) (p : BuiltPd) (slot : ℕ) (irqs : List SysIrq)
      → find_pd (pd_name p) pds ≡ ok p
      → All (λ i. i.id < 63) irqs
      → Matched
          (map (λ n. (pd_name p, n)) (map (λ i. i.id) irqs))
          (keys_of minted_badge (badge_irqs c p slot irqs).commands)
  irqs-Matched c p slot [] found small = tt
  irqs-Matched c p slot (i ∷ irqs) found small =
      ((p, found, small.0, inl refl), irqs-Matched c p (slot + 1) irqs found small.1)

  badged_irqs-Matched :
      (c : Caps) (ps : List BuiltPd) (slot : ℕ)
      → All (λ p. find_pd (pd_name p) pds ≡ ok p) ps
      → All (λ p. All (λ i. i.id < 63) (info p).irqs) ps
      → Matched
          (irq_ends (map (λ p. p.flat) ps))
          (keys_of minted_badge (badged_irqs c slot ps).commands)
  unfolding badged_irqs
  badged_irqs-Matched c [] slot found small = tt
  badged_irqs-Matched c (p ∷ ps) slot found small =
      let one = badge_irqs c p slot (info p).irqs in
      rw (keys_of-append minted_badge one.commands (badged_irqs c one.cap_slot ps).commands) (
        Matched-append (map (λ n. (pd_name p, n)) (map (λ i. i.id) (info p).irqs))
          (irq_ends (map (λ p. p.flat) ps)) _ _
          (irqs-Matched c p slot (info p).irqs found.0 small.0)
          (badged_irqs-Matched c ps one.cap_slot found.1 small.1))

  module _ (own : HaveOwnInputs pds) where
    Matched-All :
        (d : End) (es : List End) (k : ℕ × ℕ) (ks : List (ℕ × ℕ))
        → BadgeAt d k
        → All (λ e. d ≢ e) es
        → Matched es ks
        → All (λ l. k ≢ l) ks
    Matched-All d [] k [] at ne h = tt
    Matched-All d [] k (l ∷ ks) at ne h = absurd h
    Matched-All d (e ∷ es) k [] at ne h = absurd h
    Matched-All d (e ∷ es) k (l ∷ ks) at ne h =
        (BadgeAt-apart own d e k l ne.0 at h.0, Matched-All d es k ks at ne.1 h.1)

    Matched-Pairwise :
        (es : List End) (ks : List (ℕ × ℕ))
        → Matched es ks
        → Pairwise (λ d e. d ≢ e) es
        → Pairwise (λ k l. k ≢ l) ks
    Matched-Pairwise [] [] h p = tt
    Matched-Pairwise [] (k ∷ ks) h p = absurd h
    Matched-Pairwise (e ∷ es) [] h p = absurd h
    Matched-Pairwise (e ∷ es) (k ∷ ks) h p =
        (Matched-All e es k ks h.0 p.0 h.1, Matched-Pairwise es ks h.1 p.1)

-- Where each domain is found under its name and has a notification and an endpoint of its own, where
-- the interrupts and the channel ends of the domains are pairwise different and their identifiers
-- below 63, no two commands of the interrupts and the channels mint one object with one badge.
pub minted_badge-Pairwise :
    (c : Caps) (pds : List BuiltPd) (slot : ℕ) (channels : List Channel) (cmds : List Command)
    → HaveOwnInputs pds
    → All (λ p. find_pd (pd_name p) pds ≡ ok p) pds
    → All (λ p. All (λ i. i.id < 63) (info p).irqs) pds
    → All (λ ch. (ch.id_a < 63) × (ch.id_b < 63)) channels
    → Pairwise (λ d e. d ≢ e) (irq_ends (map (λ p. p.flat) pds) ++ channel_ends channels)
    → mint_channels c pds channels ≡ ok cmds
    → Pairwise (λ k l. k ≢ l) (keys_of minted_badge ((badged_irqs c slot pds).commands ++ cmds))
minted_badge-Pairwise c pds slot channels cmds own found small_irqs small ends h =
    let irqs = (badged_irqs c slot pds).commands in
    let first = irq_ends (map (λ p. p.flat) pds) in
    let (in_irqs, in_channels, across) = Pairwise-append_inv _ first (channel_ends channels) ends in
    let matched = badged_irqs-Matched pds c pds slot found small_irqs in
    let apart = BadgeAt-apart pds own in
    let one = one_channel pds c own in
    rw (keys_of-append minted_badge irqs cmds) (
      Pairwise-append _ (keys_of minted_badge irqs) (keys_of minted_badge cmds)
        (Matched-Pairwise pds own first (keys_of minted_badge irqs) matched in_irqs)
        (mint_channels-Pairwise (BadgeAt pds) minted_badge c pds apart one channels cmds small h
          in_channels)
        (All-imp (keys_of minted_badge irqs)
          (λ k (d, others, at).
            All-imp (keys_of minted_badge cmds) (λ l (e, ne, al). apart d e k l ne at al)
              (mint_channels-StandFor (BadgeAt pds) minted_badge c pds apart one (λ e. d ≢ e)
                channels cmds small h others))
          (Matched-StandFor pds (λ d. All (λ e. d ≢ e) (channel_ends channels)) first
            (keys_of minted_badge irqs) matched across)))
