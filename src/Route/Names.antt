-- ===== src/Route/Names.antt =====
-- The names of the rings that the repeater makes, as lists of character codes.
use dpdk_udp_receiver.Common.{ℕ, ◌≡◌, List, ◌++◌}
use dpdk_udp_receiver.Text.{to_string, codes}
use dpdk_udp_receiver.Text.Numerals.{to_string-IsPlain, to_string-injective, parted-injective}
use mathlib.Core.List.{append_cancel_left}

-- `res_ring_template + std::to_string(msg_ptr->channel_id)`
unfoldable pub res_ring_name : ℕ → List ℕ
res_ring_name channel = codes "RES_RING_" ++ to_string channel

-- `data_ring_template + "C" + std::to_string(item.first) + "_" + "D" + std::to_string(sub_item)`
unfoldable pub data_ring_name : ℕ → ℕ → List ℕ
data_ring_name channel dhsm =
    codes "RING_DATA_"
    ++ (codes "C" ++ (to_string channel ++ (codes "_" ++ (codes "D" ++ to_string dhsm))))

-- Two routes whose data rings have the same name are one route, so `rte_ring_create` is never asked
-- for a name that another route uses.
pub data_ring_name-injective :
    (channel dhsm channel' dhsm' : ℕ)
    → data_ring_name channel dhsm ≡ data_ring_name channel' dhsm'
    → (channel ≡ channel') × (dhsm ≡ dhsm')
unfolding data_ring_name
data_ring_name-injective channel dhsm channel' dhsm' e =
    let (f, h) =
      parted-injective (to_string channel) (to_string channel') (codes "D" ++ to_string dhsm)
        (codes "D" ++ to_string dhsm') (to_string-IsPlain channel) (to_string-IsPlain channel')
        (append_cancel_left (codes "RING_DATA_C") _ _ e) in
    (
      to_string-injective channel channel' f,
      to_string-injective dhsm dhsm' (append_cancel_left (codes "D") _ _ h),
    )
