-- ===== src/Route/Counts.antt =====
-- After a message there is one ring for each subscriber of each channel.
use dpdk_udp_receiver.Common.{
  ℕ, zero, suc, ◌+◌, ◌≡◌, ◌∙◌, refl, arith, ◌&&◌, Option, List, [], ◌∷◌, ◌++◌, ltb, leb, ◌==◌,
  ==_iff, if◌then◌else◌, modify, length, length-append,
}
use dpdk_udp_receiver.Route.Rings.{Registry}
use dpdk_udp_receiver.Route.Names.{data_ring_name}
use dpdk_udp_receiver.Route.{
  Bits, no_bits, DhsmMessage, RouteTable, sum_bits, open_channels, add_dhsm, add_dhsms,
  generate_map1, generate_map2, free_ring, make_rings, make_all, generate_ring, handle_msg,
}
use dpdk_udp_receiver.Route.Subscribers.{subscribers}

-- How many values a table has for a key.
unfoldable pub total {ℓ} : {A : Type ℓ} → ℕ → List (ℕ × List A) → ℕ
total c [] = 0
total c ((k, v) ∷ m) = (if k == c then length v else 0) + total c m

total-emplace_back {ℓ} :
    {A : Type ℓ} (c k : ℕ) (a : A) (m : List (ℕ × List A))
    → total c (modify k [] (λ v. v ++ (a ∷ [])) m) ≡ (if k == c then 1 else 0) + total c m
unfolding total modify
total-emplace_back c k a [] = ground arith
total-emplace_back c k a ((j, v) ∷ m) = ground (
  arith,
  ==_iff j k,
  ==_iff j c,
  ==_iff k c,
  length-append v (a ∷ []),
  total-emplace_back c k a m,
)

total-reset :
    (c k : ℕ) (m : List (ℕ × List ℕ)) → total c m ≡ 0 → total c (modify k [] (λ _. []) m) ≡ 0
unfolding total modify
total-reset c k [] h = ground arith
total-reset c k ((j, v) ∷ m) h = ground (arith, total-reset c k m)

total-open_channels :
    (c n i : ℕ) (sum : Bits) (m : List (ℕ × List ℕ))
    → total c m ≡ 0
    → total c (open_channels n i sum m) ≡ 0
unfolding open_channels
total-open_channels c zero i sum m h = h
total-open_channels c (suc n) i sum m h =
    total-open_channels c n (i + 1) sum (if sum i then modify i [] (λ _. []) m else m)
      (ground (arith, total-reset c i m))

total-add_dhsm :
    (c n i dhsm : ℕ) (bits : Bits) (m : List (ℕ × List ℕ))
    → total c (add_dhsm n i dhsm bits m)
      ≡ (if leb i c && (ltb c (i + n) && bits c) then 1 else 0) + total c m
unfolding add_dhsm
total-add_dhsm c zero i dhsm bits m = ground arith
total-add_dhsm c (suc n) i dhsm bits m = ground (
  arith,
  ==_iff i c,
  total-emplace_back c i dhsm m,
  total-add_dhsm c n (i + 1) dhsm bits
      (if bits i then modify i [] (λ v. v ++ (dhsm ∷ [])) m else m),
)

total-add_dhsms :
    (c : ℕ) (items : List (ℕ × Bits)) (m : List (ℕ × List ℕ))
    → total c (add_dhsms items m)
      ≡ (if ltb c 16 then length (subscribers c items) else 0) + total c m
unfolding add_dhsms subscribers
total-add_dhsms c [] m = ground arith
total-add_dhsms c ((dhsm, bits) ∷ items) m =
    ground (
      arith,
      total-add_dhsm c 16 0 dhsm bits m,
      total-add_dhsms c items (add_dhsm 16 0 dhsm bits m),
    )

module _ (g : Registry) where
  total-make_rings :
      (c channel : ℕ) (ds : List ℕ) (m : List (ℕ × List (Option ℕ))) (s : g.State)
      → total c (make_rings g channel ds (m, s)).0
        ≡ (if channel == c then length ds else 0) + total c m
  unfolding make_rings
  total-make_rings c channel [] m s = ground arith
  total-make_rings c channel (dhsm ∷ ds) m s =
      let (r, s') = g.create (data_ring_name channel dhsm) s in
      ground (
        arith,
        total-emplace_back c channel r m,
        total-make_rings c channel ds (modify channel [] (λ v. v ++ (r ∷ [])) m) s',
      )

  total-make_all :
      (c : ℕ) (items : List (ℕ × List ℕ)) (m : List (ℕ × List (Option ℕ))) (s : g.State)
      → total c (make_all g items (m, s)).0 ≡ total c items + total c m
  unfolding make_all total
  total-make_all c [] m s = ground arith
  total-make_all c ((channel, ds) ∷ items) m s =
      let (m', s') = make_rings g channel ds (m, s) in
      ground (arith, total-make_rings c channel ds m s, total-make_all c items m' s')

  -- After any message, the table of routes has for each channel below 16 as many entries as DHSMs
  -- want the channel, and none for any other, whatever it had before.
  pub handle_msg-total :
      (msg : Option DhsmMessage) (t : RouteTable) (s : g.State) (c : ℕ)
      → let (t', s') = (handle_msg g msg (t, s)).1 in
        total c t'.channel_dhsm_ring_map
        ≡ (if ltb c 16 then length (subscribers c t'.dhsm_channel_map) else 0)
  unfolding handle_msg generate_map2 free_ring generate_ring total
  handle_msg-total msg t s c =
      let t1 = (generate_map1 msg t).1 in
      let sum = sum_bits t1.dhsm_channel_map no_bits in
      let opened = open_channels 16 0 sum [] in
      total-make_all c (add_dhsms t1.dhsm_channel_map opened) [] _
      ∙ ground (
        arith,
        total-add_dhsms c t1.dhsm_channel_map opened,
        total-open_channels c 16 0 sum [] refl,
      )
