-- ===== src/Builder/CSpace/Channels/Slots.antt =====
-- No slot of a protection domain's capability space is filled twice by the channels.
use text.Mathlib.Text.{◌==◌ as str_eq}
use text.Mathlib.TextEquality.{eq_iff}
use sel4cp.Prelude.{
  ℕ, ◌+◌, ◌<◌, ◌≡◌, ◌≢◌, refl, sym, ap, subst, ◌∙◌, List, [], ◌∷◌, ok, Bool-cases, inl, inr, ◌⊎◌,
  All, Pairwise, arith,
}
use sel4cp.Invocation.{Command, cnode_mint, cnode_copy}
use sel4cp.Description.{Channel}
use sel4cp.Description.Ends.{End, channel_ends}
use sel4cp.Builder.CSpace.{Caps, BuiltPd, find_pd, base_output_ntfn_cap_idx, base_output_ep_cap_idx}
use sel4cp.Builder.CSpace.Channels.{mint_channel, mint_channels}
use sel4cp.Builder.CSpace.Channels.Ends.{
  keys_of, keys_of-append, StandFor, find_pd-apart, mint_channels-Pairwise,
}
use sel4cp.Builder.CSpace.Channels.Inverted.{
  AtMostOne, EndpointMint, one_channel_lem, mint_channel-eq-ok,
}

-- The capability node and the slot that a command fills.
abbrev pub filled_slot : Command → List (ℕ × ℕ)
filled_slot cmd = elim cmd.invocation [
  | cnode_mint cnode idx depth root obj src_depth rights badge ↦ (cnode, idx) ∷ []
  | cnode_copy cnode idx depth root obj src_depth rights ↦ (cnode, idx) ∷ []
  | _ ↦ []
]

abbrev pub HaveOwnCnodes : List BuiltPd → Type 0
HaveOwnCnodes pds = Pairwise (λ p q. p.cnode.cap_addr ≢ q.cnode.cap_addr) pds

module _ (pds : List BuiltPd) where
  -- The slot lies in the part of the end's domain that is for notifications or for endpoints.
  abbrev At : ℕ → BuiltPd → End → ℕ × ℕ → Type 0
  At base p e k = k ≡ (p.cnode.cap_addr, base + e.1)

  abbrev SlotAt : End → ℕ × ℕ → Type 0
  SlotAt e k =
      (p : BuiltPd) × (find_pd e.0 pds ≡ ok p)
      × (e.1 < 63)
      × (At base_output_ntfn_cap_idx p e k ⊎ At base_output_ep_cap_idx p e k)

  -- Slots of different numbers are different ends of one domain.
  SlotAt-number :
      (n d e : ℕ)
      → d < 63
      → e < 63
      → (n ≡ base_output_ntfn_cap_idx + d) ⊎ (n ≡ base_output_ep_cap_idx + d)
      → (n ≡ base_output_ntfn_cap_idx + e) ⊎ (n ≡ base_output_ep_cap_idx + e)
      → d ≡ e
  SlotAt-number n d e hd he (inl h) (inl k) = omega arith
  SlotAt-number n d e hd he (inl h) (inr k) = omega arith
  SlotAt-number n d e hd he (inr h) (inl k) = omega arith
  SlotAt-number n d e hd he (inr h) (inr k) = omega arith

  SlotAt-node :
      (p : BuiltPd) (e : End) (k : ℕ × ℕ)
      → At base_output_ntfn_cap_idx p e k ⊎ At base_output_ep_cap_idx p e k
      → (k.0 ≡ p.cnode.cap_addr)
        × ((k.1 ≡ base_output_ntfn_cap_idx + e.1) ⊎ (k.1 ≡ base_output_ep_cap_idx + e.1))
  SlotAt-node p e k (inl h) = (ap (λ t. t.0) h, inl (ap (λ t. t.1) h))
  SlotAt-node p e k (inr h) = (ap (λ t. t.0) h, inr (ap (λ t. t.1) h))

  SlotAt-apart :
      HaveOwnCnodes pds → (d e : End) (k l : ℕ × ℕ) → d ≢ e → SlotAt d k → SlotAt e l → k ≢ l
  SlotAt-apart own d e k l ne (p, found_p, small_d, hk) (q, found_q, small_e, hl) same =
      let (node_k, number_k) = SlotAt-node p d k hk in
      let (node_l, number_l) = SlotAt-node q e l hl in
      elim (Bool-cases (str_eq d.0 e.0)) [
        | inl one ↦
            let names = (eq_iff d.0 e.0).0 one in
            let number : d.1 ≡ e.1 = SlotAt-number k.1 d.1 e.1 small_d small_e number_k (
              subst
                (λ t. (t.1 ≡ base_output_ntfn_cap_idx + e.1) ⊎ (t.1 ≡ base_output_ep_cap_idx + e.1))
                (sym same) number_l) in
            ne cc
        | inr two ↦
            find_pd-apart (λ p q. p.cnode.cap_addr ≢ q.cnode.cap_addr) pds d.0 e.0 p q
              (λ p q h s. h (sym s)) own found_p found_q
              (λ names. let yes = (eq_iff d.0 e.0).1 names in cc)
              (sym node_k ∙ ap (λ t. t.0) same ∙ node_l)
      ]

  slot_of-EndpointMint :
      (c : Caps) (from to : BuiltPd) (from_id to_id : ℕ) (cmds : List Command)
      → EndpointMint c from from_id to to_id cmds
      → AtMostOne
          (λ k. k ≡ (from.cnode.cap_addr, base_output_ep_cap_idx + from_id))
          (keys_of filled_slot cmds)
  slot_of-EndpointMint c from to from_id to_id cmds (inl e) = inl (rw e refl)
  slot_of-EndpointMint c from to from_id to_id cmds (inr (ep, _, e)) =
      inr ((from.cnode.cap_addr, base_output_ep_cap_idx + from_id), rw e refl, refl)

  -- Slots of the two kinds are different.
  kinds_apart :
      (p q m n : ℕ)
      → m < 63
      → n < 63
      → ◌≢◌ {A = ℕ × ℕ} (p, base_output_ntfn_cap_idx + m) (q, base_output_ep_cap_idx + n)
  kinds_apart p q m n hm hn same =
      let e : base_output_ntfn_cap_idx + m ≡ base_output_ep_cap_idx + n = ap (λ t. t.1) same in
      omega arith

  module _ (c : Caps) (own : HaveOwnCnodes pds) where
    one_channel :
        (ch : Channel) (cmds : List Command)
        → ch.id_a < 63
        → ch.id_b < 63
        → mint_channel c pds ch ≡ ok cmds
        → let a : End = (ch.pd_a, ch.id_a) in
          let b : End = (ch.pd_b, ch.id_b) in
          (a ≢ b → Pairwise (λ k l. k ≢ l) (keys_of filled_slot cmds))
          × StandFor SlotAt (λ e. (e ≡ a) ⊎ (e ≡ b)) (keys_of filled_slot cmds)
    one_channel ch cmds ha hb h =
        let (p, q, ep_a, ep_b, found_p, found_q, mint_a, mint_b, same) =
          mint_channel-eq-ok c pds ch h in
        let a : End = (ch.pd_a, ch.id_a) in
        let b : End = (ch.pd_b, ch.id_b) in
        subst
          (λ t.
            (a ≢ b → Pairwise (λ k l. k ≢ l) (keys_of filled_slot t))
            × StandFor SlotAt (λ e. (e ≡ a) ⊎ (e ≡ b)) (keys_of filled_slot t))
          same
          (rw (keys_of-append filled_slot ep_a ep_b) (
            one_channel_lem SlotAt (λ e. (e ≡ a) ⊎ (e ≡ b)) (SlotAt-apart own) a b
              (λ k. k ≡ (p.cnode.cap_addr, base_output_ep_cap_idx + ch.id_a))
              (λ k. k ≡ (q.cnode.cap_addr, base_output_ep_cap_idx + ch.id_b))
              (p.cnode.cap_addr, base_output_ntfn_cap_idx + ch.id_a)
              (q.cnode.cap_addr, base_output_ntfn_cap_idx + ch.id_b) (keys_of filled_slot ep_a)
              (keys_of filled_slot ep_b) (inl refl, inr refl)
              ((p, found_p, ha, inl refl), (q, found_q, hb, inl refl))
              (λ k e. (
                (p, found_p, ha, inr e),
                λ s. kinds_apart p.cnode.cap_addr p.cnode.cap_addr ch.id_a ch.id_a ha ha (s ∙ e),
              ))
              (λ k e. (
                (q, found_q, hb, inr e),
                λ s. kinds_apart q.cnode.cap_addr q.cnode.cap_addr ch.id_b ch.id_b hb hb (s ∙ e),
              ))
              (slot_of-EndpointMint c p q ch.id_a ch.id_b ep_a mint_a)
              (slot_of-EndpointMint c q p ch.id_b ch.id_a ep_b mint_b)))

-- Where the ends of the channels are pairwise different and their identifiers below 63, as the parser
-- has them, and each domain has a capability node of its own, no two commands of the channels fill
-- one slot.
pub mint_channels-filled_slot :
    (c : Caps) (pds : List BuiltPd) (channels : List Channel) (cmds : List Command)
    → HaveOwnCnodes pds
    → All (λ ch. (ch.id_a < 63) × (ch.id_b < 63)) channels
    → Pairwise (λ d e. d ≢ e) (channel_ends channels)
    → mint_channels c pds channels ≡ ok cmds
    → Pairwise (λ k l. k ≢ l) (keys_of filled_slot cmds)
mint_channels-filled_slot c pds channels cmds own small ends h =
    mint_channels-Pairwise (SlotAt pds) filled_slot c pds (SlotAt-apart pds own)
      (one_channel pds c own) channels cmds small h ends
