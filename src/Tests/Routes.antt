-- ===== src/Tests/Routes.antt =====
-- The theorems about the route table, at concrete tables.
use dpdk_udp_receiver.Common.{
  ℕ, ◌+◌, ◌<◌, ◌≡◌, refl, arith, ==_iff, true, Option, none, some, List, [], ◌∷◌, times, ◌==◌,
  if◌then◌else◌, lookup, update,
}
use dpdk_udp_receiver.Route.Rings.{Registry, IsRegistry}
use dpdk_udp_receiver.Route.{
  no_bits, DhsmMessage, RouteTable, generate_map1, generate_map2, handle_msg,
}
use dpdk_udp_receiver.Route.Leaks.{times_routes, times_rings, IsLive, handle_msg-IsLive}
use dpdk_udp_receiver.Route.{
  update_map1, sum_bits, open_channels, add_dhsms, add_dhsm, free_ring, free_all, free_rings,
  generate_ring, make_all, make_rings,
}
use dpdk_udp_receiver.Common.{modify}

abbrev message : DhsmMessage
message = record { dhsm_id = 1; channel_id = 5; flag = true }

abbrev far_message : DhsmMessage
far_message = record { dhsm_id = 2; channel_id = 16; flag = true }

-- DHSM 1 wants the channel 3, for which there is the ring 7, and a null pointer.
abbrev pub table : RouteTable
table = record {
  dhsm_channel_map = (1, update no_bits 3 true) ∷ [];
  channel_dhsm_map = [];
  dhsm_res_ring_map = [];
  channel_dhsm_ring_map = (3, some 7 ∷ none ∷ []) ∷ [];
  channel_sum = no_bits;
}

-- Rings with the numbers 0, 1 and so on: the rings that exist, and the number of the next.
abbrev remove : ℕ → List ℕ → List ℕ
remove o [] = []
remove o (x ∷ xs) = if x == o then xs else x ∷ remove o xs

abbrev release_listed : Option ℕ → List ℕ × ℕ → List ℕ × ℕ
release_listed none s = s
release_listed (some r) (rings, fresh) = (remove r rings, fresh)

abbrev pub numbered : Registry
numbered = record {
  State = List ℕ × ℕ;
  live = λ s. s.0;
  create = λ name s. (some s.1, (s.1 ∷ s.0, s.1 + 1));
  release = release_listed;
}

times-remove :
    (o r : ℕ) (xs : List ℕ) → 0 < times r xs → times o (remove r xs) + times o (r ∷ []) ≡ times o xs
times-remove o r [] h = absurd (omega (arith, h))
times-remove o r (x ∷ xs) h = ground (arith, ==_iff x r, times-remove o r xs)

numbered-IsRegistry : IsRegistry numbered
numbered-IsRegistry = record {
  create_adds = λ o name s. omega arith;
  release_none = λ o s. refl;
  release_some = λ o r s h. times-remove o r s.0 h;
}

table-IsLive : IsLive numbered numbered-IsRegistry (table, (7 ∷ 8 ∷ [], 9))
unfolding IsLive times_routes times_rings
table-IsLive o = omega arith

handle_msg-IsLive_example :
    (let (t', s') = (handle_msg numbered (some message) (table, (7 ∷ 8 ∷ [], 9))).1 in
      ((o : ℕ)
        → times o s'.0 + times_routes o table.channel_dhsm_ring_map
          ≡ times o (7 ∷ 8 ∷ []) + times_routes o t'.channel_dhsm_ring_map)
      × IsLive numbered numbered-IsRegistry (t', s'))
handle_msg-IsLive_example =
    handle_msg-IsLive numbered numbered-IsRegistry (some message) table (7 ∷ 8 ∷ [], 9) table-IsLive

-- The message asks for a ring for the channel 5; there is one for the channel 3.
fresh_routes :
    (handle_msg numbered (some message) (table, (7 ∷ 8 ∷ [], 9))).1.0.channel_dhsm_ring_map
    ≡ (3, some 9 ∷ []) ∷ (5, some 10 ∷ []) ∷ []
unfolding handle_msg generate_map1 update_map1 generate_map2 sum_bits open_channels add_dhsms
    add_dhsm free_ring free_all free_rings generate_ring make_all make_rings lookup modify
fresh_routes = refl
