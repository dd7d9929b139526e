-- ===== src/Route.antt =====
-- `Route_Table` of repeater.cpp: which DHSM wants which of the 16 channels, the table turned round,
-- and a ring for each route.
pub mod Rings
pub mod Names
pub mod Links
pub mod Subscribers
pub mod Leaks
pub mod Counts
pub mod Replies
pub mod Spec
pub mod Printed
use dpdk_udp_receiver.Common.{
  ℕ, zero, suc, ◌+◌, ◌%◌, Bool, true, false, not, ◌||◌, Option, none, some, List, [], ◌∷◌, ◌++◌,
  ltb, ◌==◌, if◌then◌else◌, update, lookup, modify, value_or,
}
use Rings.{Registry}
use Names.{res_ring_name, data_ring_name}

-- `std::bitset<16>`: the bit at each place.
abbrev pub Bits : Type 0
Bits = ℕ → Bool

abbrev pub no_bits : Bits
no_bits i = false

-- `DHSM_MESSAGE`: `flag` is true for adding and false for removing. The fields are `uint8_t`.
pub record DhsmMessage : Type 0 where
  pub dhsm_id : ℕ
  pub channel_id : ℕ
  pub flag : Bool

-- `Route_Table`. A ring is none for the null pointer.
pub record RouteTable : Type 0 where
  pub dhsm_channel_map : List (ℕ × Bits)
  pub channel_dhsm_map : List (ℕ × List ℕ)
  pub dhsm_res_ring_map : List (ℕ × Option ℕ)
  pub channel_dhsm_ring_map : List (ℕ × List (Option ℕ))
  pub channel_sum : Bits

-- The maps as the constructor leaves them; `dhsm_res_ring_map` is empty by its own. The constructor
-- also makes `data_pool`, which nothing uses and which is left out.
unfoldable pub new_route_table : RouteTable
new_route_table = record {
  dhsm_channel_map = [];
  channel_dhsm_map = [];
  dhsm_res_ring_map = [];
  channel_dhsm_ring_map = [];
  channel_sum = no_bits;
}

-- `dhsm_channel_map[dhsm_id][channel_id] = flag`.
abbrev pub set_bit : DhsmMessage → List (ℕ × Bits) → List (ℕ × Bits)
set_bit msg = modify msg.dhsm_id no_bits (λ b. update b msg.channel_id msg.flag)

-- With a message at hand. The result is beside the new table.
unfoldable pub update_map1 : DhsmMessage → RouteTable → ℕ × RouteTable
update_map1 msg t = elim (lookup msg.dhsm_id t.dhsm_channel_map) [
  | none ↦
      if msg.flag
      then if ltb msg.channel_id 16
        then (1, record t { dhsm_channel_map = set_bit msg t.dhsm_channel_map })
        else (0, t)
      else (1, t)
  | some bits ↦
      if ltb msg.channel_id 16
      then (1, record t { dhsm_channel_map = set_bit msg t.dhsm_channel_map })
      else (1, t)
]

unfoldable pub generate_map1 : Option DhsmMessage → RouteTable → ℕ × RouteTable
generate_map1 none t = (0, t)
generate_map1 (some msg) t = update_map1 msg t

-- `for (auto &t : dhsm_channel_map) channel_sum = channel_sum | t.second`
unfoldable pub sum_bits : List (ℕ × Bits) → Bits → Bits
sum_bits [] sum = sum
sum_bits ((dhsm, bits) ∷ m) sum = sum_bits m (λ i. sum i || bits i)

-- `for (i = 0; i < 16; i++) if (channel_sum[i] == 1) channel_dhsm_map[i] = {}`, from round `i` on
-- with `n` rounds left.
unfoldable pub open_channels : ℕ → ℕ → Bits → List (ℕ × List ℕ) → List (ℕ × List ℕ)
open_channels zero i sum m = m
open_channels (suc n) i sum m =
    open_channels n (i + 1) sum (if sum i then modify i [] (λ _. []) m else m)

-- `for (i = 0; i < 16; i++) if (item.second[i] == 1) channel_dhsm_map[i].emplace_back(item.first)`
unfoldable pub add_dhsm : ℕ → ℕ → ℕ → Bits → List (ℕ × List ℕ) → List (ℕ × List ℕ)
add_dhsm zero i dhsm bits m = m
add_dhsm (suc n) i dhsm bits m =
    add_dhsm n (i + 1) dhsm bits (if bits i then modify i [] (λ v. v ++ (dhsm ∷ [])) m else m)

unfoldable pub add_dhsms : List (ℕ × Bits) → List (ℕ × List ℕ) → List (ℕ × List ℕ)
add_dhsms [] m = m
add_dhsms ((dhsm, bits) ∷ items) m = add_dhsms items (add_dhsm 16 0 dhsm bits m)

unfoldable pub generate_map2 : RouteTable → RouteTable
generate_map2 t =
    let sum = sum_bits t.dhsm_channel_map no_bits in
    record t {
      channel_sum = sum;
      channel_dhsm_map = add_dhsms t.dhsm_channel_map (open_channels 16 0 sum []);
    }

module _ (g : Registry) where
  -- `for (auto sub_item : item.second) rte_ring_free(sub_item)`
  unfoldable pub free_rings : List (Option ℕ) → g.State → g.State
  free_rings [] s = s
  free_rings (r ∷ rs) s = free_rings rs (g.release r s)

  unfoldable pub free_all : List (ℕ × List (Option ℕ)) → g.State → g.State
  free_all [] s = s
  free_all ((channel, rs) ∷ m) s = free_all m (free_rings rs s)

  unfoldable pub free_ring : RouteTable × g.State → RouteTable × g.State
  free_ring (t, s) = (record t { channel_dhsm_ring_map = [] }, free_all t.channel_dhsm_ring_map s)

  -- A ring for each DHSM of a channel.
  unfoldable pub make_rings :
      ℕ → List ℕ → List (ℕ × List (Option ℕ)) × g.State → List (ℕ × List (Option ℕ)) × g.State
  make_rings channel [] (m, s) = (m, s)
  make_rings channel (dhsm ∷ ds) (m, s) =
      let (r, s') = g.create (data_ring_name channel dhsm) s in
      make_rings channel ds (modify channel [] (λ v. v ++ (r ∷ [])) m, s')

  unfoldable pub make_all :
      List (ℕ × List ℕ)
      → List (ℕ × List (Option ℕ)) × g.State
      → List (ℕ × List (Option ℕ)) × g.State
  make_all [] ms = ms
  make_all ((channel, ds) ∷ items) ms = make_all items (make_rings channel ds ms)

  unfoldable pub generate_ring : RouteTable × g.State → RouteTable × g.State
  generate_ring (t, s) =
      let (m, s') = make_all t.channel_dhsm_map (t.channel_dhsm_ring_map, s) in
      (record t { channel_dhsm_ring_map = m }, s')

  -- `handle_msg`: the result of `generate_map1` is returned at the end.
  unfoldable pub handle_msg : Option DhsmMessage → RouteTable × g.State → ℕ × (RouteTable × g.State)
  handle_msg msg (t, s) =
      let (ret, t') = generate_map1 msg t in (ret, generate_ring (free_ring (generate_map2 t', s)))
