-- ===== src/Builder/CSpace/Channels/Inverted.antt =====
-- The commands that the minting of one channel leaves.
use sel4cp.Prelude.{
  ℕ, ◌+◌, ◌^◌, bit_or, ◌≡◌, ◌≢◌, refl, sym, ◌∙◌, true, false, List, [], ◌∷◌, ◌++◌, some, ok,
  ok_injective, Bool-cases, inl, inr, ◌⊎◌, All, Pairwise, ◌>>=◌, ◌>>◌, >>=-eq-ok, guard, assertion,
  guard-eq-ok, ltb, Option-cases,
}
use sel4cp.Invocation.{Command, Invocation, once}
use sel4cp.Description.{Channel}
use sel4cp.Builder.InitSystem.{KernelObject}
use sel4cp.Builder.Layout.{pd_cap_size}
use sel4cp.Builder.CSpace.{
  Caps, BuiltPd, info, find_pd, mint_in_pd, base_output_ntfn_cap_idx, base_output_ep_cap_idx,
  badge_type_ppc,
}
use sel4cp.Description.Ends.{End}
use sel4cp.Builder.CSpace.Channels.Ends.{StandFor}
use sel4cp.Builder.CSpace.Channels.{mint_notification, mint_endpoint, mint_channel, endpoint_given}

abbrev pub notification_mint : Caps → BuiltPd → ℕ → BuiltPd → ℕ → Invocation
notification_mint c from from_id to to_id =
    mint_in_pd c from (base_output_ntfn_cap_idx + from_id) to.notification.cap_addr (2 ^ to_id)

abbrev pub endpoint_mint : Caps → BuiltPd → ℕ → KernelObject → ℕ → Invocation
endpoint_mint c from from_id ep to_id =
    mint_in_pd c from (base_output_ep_cap_idx + from_id) ep.cap_addr (bit_or badge_type_ppc to_id)

-- No command, or the one that mints the endpoint of `to` for `from`.
abbrev pub EndpointMint : Caps → BuiltPd → ℕ → BuiltPd → ℕ → List Command → Type 0
EndpointMint c from from_id to to_id cmds =
    (cmds ≡ [])
    ⊎ ((ep : KernelObject) × (to.endpoint ≡ some ep)
        × (cmds ≡ once (endpoint_mint c from from_id ep to_id) ∷ []))

mint_notification-eq-ok :
    (c : Caps) (from to : BuiltPd) (from_id to_id : ℕ) {cmd : Command}
    → mint_notification c from from_id to to_id ≡ ok cmd
    → once (notification_mint c from from_id to to_id) ≡ cmd
unfolding mint_notification
mint_notification-eq-ok c from to from_id to_id h = ok_injective (
    (guard-eq-ok (ltb (base_output_ntfn_cap_idx + from_id) pd_cap_size) assertion
      (ok (once (notification_mint c from from_id to to_id))) h).1)

endpoint_given-eq-ok :
    (p : BuiltPd) {ep : KernelObject} → endpoint_given p ≡ ok ep → p.endpoint ≡ some ep
endpoint_given-eq-ok p h = elim (Option-cases p.endpoint) [ inl e ↦ cc | inr (x, e) ↦ cc ]

mint_endpoint-accepted :
    (c : Caps) (from to : BuiltPd) (from_id to_id : ℕ)
    → (info to).pp ≡ true
    → mint_endpoint c from from_id to to_id ≡ (
        endpoint_given to >>= λ ep.
        guard (ltb (base_output_ep_cap_idx + from_id) pd_cap_size) assertion
        >> ok (once (endpoint_mint c from from_id ep to_id) ∷ []))
unfolding mint_endpoint
mint_endpoint-accepted c from to from_id to_id e = rw e refl

mint_endpoint-refused :
    (c : Caps) (from to : BuiltPd) (from_id to_id : ℕ)
    → (info to).pp ≡ false
    → mint_endpoint c from from_id to to_id ≡ ok []
unfolding mint_endpoint
mint_endpoint-refused c from to from_id to_id e = rw e refl

mint_endpoint-EndpointMint :
    (c : Caps) (from to : BuiltPd) (from_id to_id : ℕ) {cmds : List Command}
    → mint_endpoint c from from_id to to_id ≡ ok cmds
    → EndpointMint c from from_id to to_id cmds
mint_endpoint-EndpointMint c from to from_id to_id {cmds} h = elim (Bool-cases (info to).pp) [
  | inl accepts ↦
      let (ep, given, h1) =
        >>=-eq-ok (endpoint_given to) _
          (sym (mint_endpoint-accepted c from to from_id to_id accepts) ∙ h) in
      let (_, same) =
        guard-eq-ok (ltb (base_output_ep_cap_idx + from_id) pd_cap_size) assertion
          (ok (once (endpoint_mint c from from_id ep to_id) ∷ [])) h1 in
      inr (ep, endpoint_given-eq-ok to given, sym (ok_injective same))
  | inr refuses ↦
      inl (sym (ok_injective (sym (mint_endpoint-refused c from to from_id to_id refuses) ∙ h)))
]

-- The commands of one channel: two notifications, and at most two endpoints.
pub mint_channel-eq-ok :
    (c : Caps) (pds : List BuiltPd) (ch : Channel) {cmds : List Command}
    → mint_channel c pds ch ≡ ok cmds
    → (a b : BuiltPd) × (ep_a ep_b : List Command) × (find_pd ch.pd_a pds ≡ ok a)
      × (find_pd ch.pd_b pds ≡ ok b)
      × EndpointMint c a ch.id_a b ch.id_b ep_a
      × EndpointMint c b ch.id_b a ch.id_a ep_b
      × (once (notification_mint c a ch.id_a b ch.id_b)
              ∷ once (notification_mint c b ch.id_b a ch.id_a)
              ∷ ep_a
            ++ ep_b
          ≡ cmds)
unfolding mint_channel
mint_channel-eq-ok c pds ch h =
    let (a, found_a, h1) = >>=-eq-ok (find_pd ch.pd_a pds) _ h in
    let (b, found_b, h2) = >>=-eq-ok (find_pd ch.pd_b pds) _ h1 in
    let (n_a, made_a, h3) = >>=-eq-ok (mint_notification c a ch.id_a b ch.id_b) _ h2 in
    let (n_b, made_b, h4) = >>=-eq-ok (mint_notification c b ch.id_b a ch.id_a) _ h3 in
    let (ep_a, eps_a, h5) = >>=-eq-ok (mint_endpoint c a ch.id_a b ch.id_b) _ h4 in
    let (ep_b, eps_b, h6) = >>=-eq-ok (mint_endpoint c b ch.id_b a ch.id_a) _ h5 in
    (
      a,
      b,
      ep_a,
      ep_b,
      found_a,
      found_b,
      mint_endpoint-EndpointMint c a b ch.id_a ch.id_b eps_a,
      mint_endpoint-EndpointMint c b a ch.id_b ch.id_a eps_b,
      rw
          (
            mint_notification-eq-ok c a b ch.id_a ch.id_b made_a,
            mint_notification-eq-ok c b a ch.id_b ch.id_a made_b,
          )
          (ok_injective h6),
    )

-- None, or one with the property.
abbrev pub AtMostOne : {K : Type 0} → (K → Type 0) → List K → Type 0
AtMostOne Q ks = (ks ≡ []) ⊎ ((k : _) × (ks ≡ k ∷ []) × Q k)

module _ {K : Type 0} (Q1 Q2 : K → Type 0) (k1 k2 : K) (ks1 ks2 : List K) where
  -- Two keys and at most two more.
  four-Pairwise :
      AtMostOne Q1 ks1
      → AtMostOne Q2 ks2
      → k1 ≢ k2
      → ((k : K) → Q1 k → (k1 ≢ k) × (k2 ≢ k))
      → ((k : K) → Q2 k → (k1 ≢ k) × (k2 ≢ k))
      → ((k l : K) → Q1 k → Q2 l → k ≢ l)
      → Pairwise (λ k l. k ≢ l) (k1 ∷ k2 ∷ ks1 ++ ks2)
  four-Pairwise (inl e) (inl f) ne n1 n2 n3 = rw (e, f) ((ne, tt), (tt, tt))
  four-Pairwise (inl e) (inr (l, f, q)) ne n1 n2 n3 =
      rw (e, f) ((ne, ((n2 l q).0, tt)), (((n2 l q).1, tt), (tt, tt)))
  four-Pairwise (inr (k, e, p)) (inl f) ne n1 n2 n3 =
      rw (e, f) ((ne, ((n1 k p).0, tt)), (((n1 k p).1, tt), (tt, tt)))
  four-Pairwise (inr (k, e, p)) (inr (l, f, q)) ne n1 n2 n3 =
      rw (e, f)
        (
          (ne, ((n1 k p).0, ((n2 l q).0, tt))),
          (((n1 k p).1, ((n2 l q).1, tt)), ((n3 k l p q, tt), (tt, tt))),
        )

  four-All :
      (P : K → Type 0)
      → AtMostOne Q1 ks1
      → AtMostOne Q2 ks2
      → P k1
      → P k2
      → ((k : K) → Q1 k → P k)
      → ((k : K) → Q2 k → P k)
      → All P (k1 ∷ k2 ∷ ks1 ++ ks2)
  four-All P (inl e) (inl f) p1 p2 q1 q2 = rw (e, f) (p1, (p2, tt))
  four-All P (inl e) (inr (l, f, q)) p1 p2 q1 q2 = rw (e, f) (p1, (p2, (q2 l q, tt)))
  four-All P (inr (k, e, p)) (inl f) p1 p2 q1 q2 = rw (e, f) (p1, (p2, (q1 k p, tt)))
  four-All P (inr (k, e, p)) (inr (l, f, q)) p1 p2 q1 q2 =
      rw (e, f) (p1, (p2, (q1 k p, (q2 l q, tt))))

module _ {K : Type 0} (At : End → K → Type 0) (P : End → Type 0)
    (apart : (d e : End) (k l : K) → d ≢ e → At d k → At e l → k ≢ l) (x y : End)
    (Q1 Q2 : K → Type 0) (nx ny : K) (ks1 ks2 : List K) where
  -- The keys of one channel are pairwise different and stand for its ends, where those of one end
  -- are.
  pub one_channel_lem :
      P x × P y
      → At x nx × At y ny
      → ((k : K) → Q1 k → At x k × (nx ≢ k))
      → ((k : K) → Q2 k → At y k × (ny ≢ k))
      → AtMostOne Q1 ks1
      → AtMostOne Q2 ks2
      → (x ≢ y → Pairwise (λ k l. k ≢ l) (nx ∷ ny ∷ ks1 ++ ks2))
        × StandFor At P (nx ∷ ny ∷ ks1 ++ ks2)
  one_channel_lem (px, py) (at_nx, at_ny) q1 q2 h1 h2 = (
    (λ ne.
        four-Pairwise Q1 Q2 nx ny ks1 ks2 h1 h2 (apart x y nx ny ne at_nx at_ny)
          (λ k h. ((q1 k h).1, apart y x ny k (λ s. ne (sym s)) at_ny (q1 k h).0))
          (λ k h. (apart x y nx k ne at_nx (q2 k h).0, (q2 k h).1))
          (λ k l g h. apart x y k l ne (q1 k g).0 (q2 l h).0)),
    four-All Q1 Q2 nx ny ks1 ks2 (λ k. (e : End) × P e × At e k) h1 h2 (x, px, at_nx) (y, py, at_ny)
        (λ k h. (x, px, (q1 k h).0)) (λ k h. (y, py, (q2 k h).0)),
  )
