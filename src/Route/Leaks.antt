-- ===== src/Route/Leaks.antt =====
-- The rings that `handle_msg` frees and makes are those of the route table.
use dpdk_udp_receiver.Common.{
  ℕ, ◌+◌, ◌≤◌, ◌≡◌, refl, Option, none, some, List, [], ◌∷◌, ◌++◌, ==_iff, arith, modify, times,
}
use dpdk_udp_receiver.Route.Rings.{Registry, IsRegistry, times_ring}
use dpdk_udp_receiver.Route.Names.{data_ring_name}
use dpdk_udp_receiver.Route.{
  RouteTable, DhsmMessage, free_rings, free_all, free_ring, make_rings, make_all, generate_ring,
  generate_map1, update_map1, generate_map2, handle_msg,
}

-- How often a ring is in a list, and in a table of lists; a null pointer is no ring.
unfoldable pub times_rings : ℕ → List (Option ℕ) → ℕ
times_rings o [] = 0
times_rings o (r ∷ rs) = times_ring o r + times_rings o rs

unfoldable pub times_routes : ℕ → List (ℕ × List (Option ℕ)) → ℕ
times_routes o [] = 0
times_routes o ((channel, rs) ∷ m) = times_rings o rs + times_routes o m

times_rings-append :
    (o : ℕ) (rs : List (Option ℕ)) (r : Option ℕ)
    → times_rings o (rs ++ (r ∷ [])) ≡ times_ring o r + times_rings o rs
unfolding times_rings
times_rings-append o [] r = ground arith
times_rings-append o (q ∷ rs) r = ground (arith, times_rings-append o rs r)

-- A ring entered under a channel is counted once more.
times_routes-modify :
    (o channel : ℕ) (r : Option ℕ) (m : List (ℕ × List (Option ℕ)))
    → times_routes o (modify channel [] (λ v. v ++ (r ∷ [])) m) ≡ times_ring o r + times_routes o m
unfolding times_routes times_rings modify
times_routes-modify o channel r [] = ground arith
times_routes-modify o channel r ((k, rs) ∷ m) =
    ground (arith, ==_iff k channel, times_rings-append o rs r, times_routes-modify o channel r m)

-- The message changes no ring.
generate_map1-routes :
    (msg : Option DhsmMessage) (t : RouteTable)
    → (generate_map1 msg t).1.channel_dhsm_ring_map ≡ t.channel_dhsm_ring_map
unfolding generate_map1 update_map1
generate_map1-routes none t = refl
generate_map1-routes (some msg) t = ground arith

module _ (g : Registry) (laws : IsRegistry g) where
  release-frees :
      (o : ℕ) (r : Option ℕ) (s : g.State)
      → ((p : ℕ) → times_ring p r ≤ times p (g.live s))
      → times o (g.live (g.release r s)) + times_ring o r ≡ times o (g.live s)
  release-frees o none s h = ground (arith, laws.release_none o s)
  release-frees o (some r) s h =
      ground (arith, laws.release_some o r s (ground (arith, h r, ==_iff r r)))

  free_rings-frees :
      (o : ℕ) (rs : List (Option ℕ)) (s : g.State)
      → ((p : ℕ) → times_rings p rs ≤ times p (g.live s))
      → times o (g.live (free_rings g rs s)) + times_rings o rs ≡ times o (g.live s)
  unfolding free_rings times_rings
  free_rings-frees o [] s h = ground arith
  free_rings-frees o (r ∷ rs) s h =
      let freed = (λ (p : ℕ). release-frees p r s (λ q. ground (arith, h q))) in
      ground
        (arith, freed o, free_rings-frees o rs (g.release r s) (λ p. ground (arith, freed p, h p)))

  free_all-frees :
      (o : ℕ) (m : List (ℕ × List (Option ℕ))) (s : g.State)
      → ((p : ℕ) → times_routes p m ≤ times p (g.live s))
      → times o (g.live (free_all g m s)) + times_routes o m ≡ times o (g.live s)
  unfolding free_all times_routes
  free_all-frees o [] s h = ground arith
  free_all-frees o ((channel, rs) ∷ m) s h =
      let freed = (λ (p : ℕ). free_rings-frees p rs s (λ q. ground (arith, h q))) in
      ground
        (arith, freed o, free_all-frees o m (free_rings g rs s) (λ p. ground (arith, freed p, h p)))

  make_rings-adds :
      (o channel : ℕ) (ds : List ℕ) (m : List (ℕ × List (Option ℕ))) (s : g.State)
      → times o (g.live (make_rings g channel ds (m, s)).1) + times_routes o m
        ≡ times o (g.live s) + times_routes o (make_rings g channel ds (m, s)).0
  unfolding make_rings
  make_rings-adds o channel [] m s = ground arith
  make_rings-adds o channel (dhsm ∷ ds) m s =
      let (r, s') = g.create (data_ring_name channel dhsm) s in
      ground (
        arith,
        laws.create_adds o (data_ring_name channel dhsm) s,
        times_routes-modify o channel (g.create (data_ring_name channel dhsm) s).0 m,
        make_rings-adds o channel ds
            (modify channel [] (λ v. v ++ ((g.create (data_ring_name channel dhsm) s).0 ∷ [])) m)
            (g.create (data_ring_name channel dhsm) s).1,
      )

  make_all-adds :
      (o : ℕ) (items : List (ℕ × List ℕ)) (m : List (ℕ × List (Option ℕ))) (s : g.State)
      → times o (g.live (make_all g items (m, s)).1) + times_routes o m
        ≡ times o (g.live s) + times_routes o (make_all g items (m, s)).0
  unfolding make_all
  make_all-adds o [] m s = ground arith
  make_all-adds o ((channel, ds) ∷ items) m s =
      let made = make_rings g channel ds (m, s) in
      ground (arith, make_rings-adds o channel ds m s, make_all-adds o items made.0 made.1)

  -- Every ring of the route is a live ring, each as often as it is in the route.
  unfoldable pub IsLive : RouteTable × g.State → Type 0
  IsLive (t, s) = (o : ℕ) → times_routes o t.channel_dhsm_ring_map ≤ times o (g.live s)

  -- When the route's rings are live, handling any message frees exactly the rings of the old route
  -- and makes exactly those of the new one: the live rings less those of the route are the same
  -- before and after, and the new route's rings are live.
  pub handle_msg-IsLive :
      (msg : Option DhsmMessage) (t : RouteTable) (s : g.State)
      → IsLive (t, s)
      → let (t', s') = (handle_msg g msg (t, s)).1 in
        ((o : ℕ)
          → times o (g.live s') + times_routes o t.channel_dhsm_ring_map
            ≡ times o (g.live s) + times_routes o t'.channel_dhsm_ring_map)
        × IsLive (t', s')
  unfolding IsLive handle_msg free_ring generate_ring generate_map2 times_routes
  handle_msg-IsLive msg t s live =
      let old = t.channel_dhsm_ring_map in
      let kept = generate_map1-routes msg t in
      let dhsms = (generate_map2 (generate_map1 msg t).1).channel_dhsm_map in
      let freed = free_all g (generate_map1 msg t).1.channel_dhsm_ring_map s in
      (
        (λ o. rw kept (
            ground
              (arith, free_all-frees o old s live, make_all-adds o dhsms [] (free_all g old s)))),
        (λ o. rw kept (
            ground
              (arith, free_all-frees o old s live, make_all-adds o dhsms [] (free_all g old s)))),
      )
