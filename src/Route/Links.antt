-- ===== src/Route/Links.antt =====
-- Which DHSM wants which channel after a message has been handled by `generate_map1`.
use dpdk_udp_receiver.Common.{
  ℕ, ◌≤◌, ◌≡◌, ◌↔◌, Bool, true, ◌&&◌, Option, none, some, inl, inr, ltb, ◌==◌, ==_iff,
  if◌then◌else◌, arith, update, lookup, value_or, lookup-modify, Option-cases,
}
use dpdk_udp_receiver.Route.{no_bits, DhsmMessage, RouteTable, update_map1, generate_map1}

-- The DHSM wants the channel.
unfoldable pub linked : RouteTable → ℕ → ℕ → Bool
linked t dhsm channel = value_or (lookup dhsm t.dhsm_channel_map) no_bits channel

-- The link that a message is about.
unfoldable pub is_about : DhsmMessage → ℕ → ℕ → Bool
is_about msg dhsm channel = (dhsm == msg.dhsm_id) && ((channel == msg.channel_id) && ltb channel 16)

-- A message sets the link between its DHSM and its channel to its flag if the channel is below 16,
-- and no other link changes, whichever branch is taken.
pub generate_map1-linked :
    (msg : DhsmMessage) (t : RouteTable) (dhsm channel : ℕ)
    → linked (generate_map1 (some msg) t).1 dhsm channel
      ≡ (if is_about msg dhsm channel then msg.flag else linked t dhsm channel)
unfolding linked is_about generate_map1 update_map1
generate_map1-linked msg t dhsm channel = ground (
  arith,
  ==_iff dhsm msg.dhsm_id,
  ==_iff msg.dhsm_id dhsm,
  ==_iff channel msg.channel_id,
  ==_iff msg.channel_id channel,
  lookup-modify msg.dhsm_id dhsm no_bits (λ b. update b msg.channel_id msg.flag) t.dhsm_channel_map,
)

-- The null pointer, or the request to add a channel past 15 to a DHSM that is not known.
unfoldable pub IsRefused : Option DhsmMessage → RouteTable → Type 0
IsRefused none t = Unit
IsRefused (some msg) t =
    (lookup msg.dhsm_id t.dhsm_channel_map ≡ none) × ((msg.flag ≡ true) × (16 ≤ msg.channel_id))

-- The result of `generate_map1` is 0 exactly for the null pointer and for adding a channel past 15
-- to a DHSM that is not yet known.
pub generate_map1-refuses_iff :
    (msg : Option DhsmMessage) (t : RouteTable) → (generate_map1 msg t).0 ≡ 0 ↔ IsRefused msg t
unfolding generate_map1 update_map1 IsRefused
generate_map1-refuses_iff none t = ground arith
generate_map1-refuses_iff (some msg) t =
    elim (Option-cases (lookup msg.dhsm_id t.dhsm_channel_map)) [
      | inl e ↦ rw e (ground arith)
      | inr (bits, e) ↦ rw e (ground arith)
    ]
