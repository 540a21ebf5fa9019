-- ===== src/Builder/CSpace/Channels.antt =====
-- The capabilities that connect two protection domains by a channel: each gets the other's
-- notification, and the endpoint of a domain that accepts protected procedure calls.
pub mod Slots
pub mod Badges
pub mod Ends
mod Inverted
use sel4cp.Prelude.{
  ℕ, ◌+◌, ◌^◌, bit_or, Bool, true, false, List, [], ◌∷◌, ◌++◌, Option, none, some, Result, ok, err,
  assertion, guard, ◌>>=◌, ◌>>◌, ltb, if◌then◌else◌,
}
use sel4cp.Invocation.{Command, once}
use sel4cp.Description.{Channel}
use sel4cp.Builder.InitSystem.{KernelObject}
use sel4cp.Builder.Layout.{pd_cap_size}
use sel4cp.Builder.CSpace.{
  Caps, BuiltPd, info, find_pd, mint_in_pd, base_output_ntfn_cap_idx, base_output_ep_cap_idx,
  badge_type_ppc,
}

-- The notification of `to` in a slot of `from`.
unfoldable pub mint_notification : Caps → BuiltPd → ℕ → BuiltPd → ℕ → Result Command
mint_notification c from from_id to to_id = do
  guard (ltb (base_output_ntfn_cap_idx + from_id) pd_cap_size) assertion
  ok (
      once (
        mint_in_pd c from (base_output_ntfn_cap_idx + from_id) to.notification.cap_addr
          (2 ^ to_id)))

abbrev endpoint_given : BuiltPd → Result KernelObject
endpoint_given p = elim p.endpoint [ none ↦ err assertion | some ep ↦ ok ep ]

-- Where `to` accepts calls, its endpoint in a slot of `from`.
unfoldable pub mint_endpoint : Caps → BuiltPd → ℕ → BuiltPd → ℕ → Result (List Command)
mint_endpoint c from from_id to to_id = elim (info to).pp [
  | false ↦ ok []
  | true ↦ do
    ep ← endpoint_given to
    guard (ltb (base_output_ep_cap_idx + from_id) pd_cap_size) assertion
    ok (
        once (
          mint_in_pd c from (base_output_ep_cap_idx + from_id) ep.cap_addr
            (bit_or badge_type_ppc to_id))
        ∷ [])
]

unfoldable pub mint_channel : Caps → List BuiltPd → Channel → Result (List Command)
mint_channel c pds channel = do
  a ← find_pd channel.pd_a pds
  b ← find_pd channel.pd_b pds
  ntfn_a ← mint_notification c a channel.id_a b channel.id_b
  ntfn_b ← mint_notification c b channel.id_b a channel.id_a
  ep_a ← mint_endpoint c a channel.id_a b channel.id_b
  ep_b ← mint_endpoint c b channel.id_b a channel.id_a
  ok (ntfn_a ∷ ntfn_b ∷ ep_a ++ ep_b)

unfoldable pub mint_channels : Caps → List BuiltPd → List Channel → Result (List Command)
unfolding mint_channel
mint_channels c pds [] = ok []
mint_channels c pds (channel ∷ channels) = do
  one ← mint_channel c pds channel
  rest ← mint_channels c pds channels
  ok (one ++ rest)
