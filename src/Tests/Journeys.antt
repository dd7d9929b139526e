-- ===== src/Tests/Journeys.antt =====
-- The theorem about a frame's way, with 44 packets that come in falling order.
use dpdk_udp_receiver.Common.{ℕ, zero, suc, ◌≤◌, ◌≡◌, refl, arith, none, List, [], ◌∷◌, length}
use dpdk_udp_receiver.Dpdk.Listed.{listed, listed-Lawful}
use dpdk_udp_receiver.Channel.{Packet}
use dpdk_udp_receiver.Assemble.{Consumer, running}
use dpdk_udp_receiver.Assemble.Frames.{Belong, Separate, Apart}
use dpdk_udp_receiver.Pipeline.Journey.{Delivered, journey, journey-Delivered}
use dpdk_udp_receiver.Tests.{idle, everything, packet, channel}

abbrev pub falling : ℕ → List Packet
falling zero = []
falling (suc n) = packet 3 n ∷ falling n

pub length-falling : (n : ℕ) → length (falling n) ≡ n
length-falling zero = refl
length-falling (suc n) = omega (arith, length-falling n)

pub falling-Belong : (n : ℕ) → n ≤ 44 → Belong 3 (falling n)
falling-Belong zero h = tt
falling-Belong (suc n) h =
    ((record { seq_in = omega arith; len_in = omega arith }, refl), falling-Belong n (omega arith))

falling-Apart : (n q : ℕ) → n ≤ q → Apart (packet 3 q) (falling n)
falling-Apart zero q h = tt
falling-Apart (suc n) q h = (λ e. absurd (omega arith), falling-Apart n q (omega arith))

pub falling-Separate : (n : ℕ) → Separate (falling n)
falling-Separate zero = tt
falling-Separate (suc n) = (falling-Apart n n (omega arith), falling-Separate n)

abbrev pub begun : Consumer
begun = record { loop = running; packet_seq = 0; tmp_frame = none }

journey-Delivered_example :
    Delivered everything listed 100 3
      (packet 3 43 ∷ falling 43)
      (101 ∷ [])
      idle
      (journey everything listed (packet 3 43 ∷ falling 43) 7 9 (channel [] [], begun) idle)
journey-Delivered_example =
    journey-Delivered everything listed listed-Lawful 100 3 7 9 (packet 3 43) (falling 43)
      (channel [] []) begun idle (101 ∷ []) refl refl refl (falling-Belong 44 (omega arith))
      (falling-Separate 44) (length-falling 44) (omega arith) (refl, omega arith)
      (refl, omega arith)
