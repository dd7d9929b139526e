-- ===== src/Route/Spec.antt =====
-- What the route table stands for: a set of links between DHSMs and channels. How its maps are
-- ordered is forgotten.
use dpdk_udp_receiver.Common.{
  ℕ, ◌+◌, ◌≤◌, ◌≡◌, Bool, false, Option, none, some, List, [], ◌∷◌, ltb, ◌==◌, if◌then◌else◌,
  lookup, value_or, length, times, ◌&&◌,
}
use dpdk_udp_receiver.Route.Rings.{Registry}
use dpdk_udp_receiver.Route.{Bits, DhsmMessage, RouteTable, handle_msg}
use dpdk_udp_receiver.Route.Links.{linked, is_about}
use dpdk_udp_receiver.Route.Counts.{total}

-- Which DHSM wants which channel.
abbrev pub Links : Type 0
Links = ℕ → ℕ → Bool

abbrev pub no_links : Links
no_links dhsm channel = false

-- What a message asks for.
abbrev pub set_link : Option DhsmMessage → Links → Links
set_link none links dhsm channel = links dhsm channel
set_link (some msg) links dhsm channel =
    if is_about msg dhsm channel then msg.flag else links dhsm channel

-- How often a key stands in a map.
abbrev pub entries : ℕ → List (ℕ × Bits) → ℕ
entries k [] = 0
entries k ((j, bits) ∷ m) = (if j == k then 1 else 0) + entries k m

-- How often a DHSM is to stand in the list of a channel.
abbrev pub wish : Links → ℕ → ℕ → ℕ
wish links dhsm channel = if ltb channel 16 && links dhsm channel then 1 else 0

-- The table stands for the links: a DHSM has one entry at most, with a bit for each link; the list
-- of a channel has each DHSM that wants it once, and no other; channels from 16 on have no list, not
-- even an empty one; and there is an entry in the table of rings for each of them, a ring or the null
-- pointer of a failed rte_ring_create.
pub record Represents (links : Links) (t : RouteTable) : Type 0 where
  pub single : (dhsm : ℕ) → entries dhsm t.dhsm_channel_map ≤ 1
  pub bits : (dhsm channel : ℕ) → linked t dhsm channel ≡ links dhsm channel
  pub listed :
      (dhsm channel : ℕ)
      → times dhsm (value_or (lookup channel t.channel_dhsm_map) []) ≡ wish links dhsm channel
  pub absent : (channel : ℕ) → 16 ≤ channel → lookup channel t.channel_dhsm_map ≡ none
  pub routed :
      (channel : ℕ)
      → total channel t.channel_dhsm_ring_map
        ≡ length (value_or (lookup channel t.channel_dhsm_map) [])

module _ (g : Registry) where
  -- A run of messages.
  abbrev pub handle_all : List (Option DhsmMessage) → RouteTable × g.State → RouteTable × g.State
  handle_all [] s = s
  handle_all (msg ∷ msgs) s = handle_all msgs (handle_msg g msg s).1

abbrev pub set_links : List (Option DhsmMessage) → Links → Links
set_links [] links = links
set_links (msg ∷ msgs) links = set_links msgs (set_link msg links)
