-- ===== src/Tests/Bursts.antt =====
-- The theorems about bursts, at concrete bursts.
use dpdk_udp_receiver.Common.{ℕ, ◌≡◌, refl, arith, ==_iff, List, [], ◌∷◌}
use dpdk_udp_receiver.Dpdk.Listed.{listed, listed-Lawful}
use dpdk_udp_receiver.Channel.{Channel}
use dpdk_udp_receiver.Receive.{Mbuf, receive, turns, lcore_round, deliver}
use dpdk_udp_receiver.Receive.Delivery.{Received, Lost, receive-Received, receive-Lost}
use dpdk_udp_receiver.Receive.Ports.{Turn, lcore_round-eq-ok}
use dpdk_udp_receiver.Tests.{channel, value_of}

abbrev mbuf : Mbuf
mbuf = record { buf = λ i. i; data_off = 128 }

abbrev burst : List Mbuf
burst = mbuf ∷ mbuf ∷ []

-- The ring, which has room for four, holds one buffer.
abbrev roomy : Channel listed
roomy = channel (20 ∷ 21 ∷ 22 ∷ []) (23 ∷ [])

receive-Received_example : Received listed listed-Lawful burst roomy (receive listed burst roomy)
receive-Received_example =
    receive-Received listed listed-Lawful burst roomy (20 ∷ 21 ∷ []) (22 ∷ []) (omega arith) refl
      (omega arith) (λ o. ground (arith, ==_iff 20 o, ==_iff 21 o, ==_iff 22 o))

-- It holds three.
abbrev crowded : Channel listed
crowded = channel (20 ∷ 21 ∷ 22 ∷ []) (23 ∷ 24 ∷ 25 ∷ [])

receive-Lost_example : Lost listed listed-Lawful burst crowded (receive listed burst crowded)
receive-Lost_example =
    receive-Lost listed listed-Lawful burst crowded (20 ∷ 21 ∷ []) (22 ∷ []) (omega arith) refl
      (omega arith)

abbrev bursts : ℕ → List Mbuf
bursts port = burst

abbrev after_round : List (Channel listed)
after_round = value_of [] (lcore_round listed bursts (roomy ∷ crowded ∷ roomy ∷ crowded ∷ []))

lcore_round-eq-ok_example :
    (x : Channel listed) × (y : Channel listed) × (z : Channel listed) × Turn listed bursts roomy x
    × Turn listed bursts crowded y
    × Turn listed bursts roomy z
    × (after_round ≡ x ∷ y ∷ z ∷ crowded ∷ [])
unfolding lcore_round turns receive deliver
lcore_round-eq-ok_example =
    lcore_round-eq-ok listed bursts roomy crowded roomy (crowded ∷ []) after_round refl
