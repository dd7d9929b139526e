-- ===== src/Tests/Launched.antt =====
-- `main` on two ports and two worker lcores, without DROP, and the threads of its first channel
-- as the consumer begins.
use dpdk_udp_receiver.Common.{
  arith, get_elem?, get_elem?-zero, none, some, ◌≡◌, refl, [], ◌∷◌, pos, true, false, ok,
}
use dpdk_udp_receiver.Dpdk.Listed.{listed, listed-Lawful}
use dpdk_udp_receiver.Channel.{Config, Channel}
use dpdk_udp_receiver.Setup.{frame_pool_size}
use dpdk_udp_receiver.Send.{Sender}
use dpdk_udp_receiver.Boot.{Running, boot, waits}
use dpdk_udp_receiver.Boot.Starts.{boot-eq-waits}
use dpdk_udp_receiver.Boot.Channels.{boot-AreReady, as_started}
use dpdk_udp_receiver.Boot.Orderly.{launched, boot-goes_well}
use dpdk_udp_receiver.Accesses.{
  Taking, Sending, Threads, consumer_access, send_access, consumes, delivers, starts, here, next,
  Run, away, access_at, warm_up,
}
use dpdk_udp_receiver.Timer.{start}
use dpdk_udp_receiver.Assemble.{syncing, round, new_consumer}
use dpdk_udp_receiver.Accesses.Safety.{IsCalm}
use dpdk_udp_receiver.Accesses.Spread.{IsOrderly}
use dpdk_udp_receiver.Tests.{packet, idle, memory-AreBytes, memory, blank, ring_of}
use dpdk_udp_receiver.Tests.Boots.{cpu_sets, machine, nothing, two_ports-IsApart, machine-IsWorking}
use dpdk_udp_receiver.Tests.Setups.{maker, maker-IsMaker}
use dpdk_udp_receiver.Tests.Devices.{two_ports, two_ports-IsEthdev, stopped}

abbrev calm : Config
calm = record { godot = true; kaze = true; drop = false }

started :
    (r : Running listed two_ports cpu_sets) × (boot calm listed maker two_ports machine cpu_sets
        (pos 0)
        (1 ∷ 2 ∷ [])
        memory
        (λ _. blank)
        nothing
        tt
        stopped
      ≡ waits r)
started =
    boot-eq-waits calm listed maker two_ports machine cpu_sets 0 (1 ∷ 2 ∷ []) memory (λ _. blank)
      nothing tt stopped (λ name size s. tt) (λ name n s. tt) machine-IsWorking (omega arith)

first_one : (c : Channel listed) × (get_elem? started.0.channels 0 ≡ some c)
first_one =
    get_elem?-zero started.0.channels 5
      (boot-AreReady calm listed maker two_ports machine cpu_sets (pos 0) (1 ∷ 2 ∷ []) memory
        (λ _. blank) nothing tt stopped listed-Lawful maker-IsMaker (λ p s. s p) two_ports-IsEthdev
        two_ports-IsApart idle started.0 memory-AreBytes
        (λ f. record { no_packets = refl; no_flags = λ i _. refl }) started.1).0

-- The timer thread has let the consumer begin, two packets have come, and the consumer has left its
-- first loop.
abbrev supplied : Threads listed
supplied = record (launched calm listed listed-Lawful idle (packet 0 0) (as_started first_one.0)) {
  chan = record (as_started first_one.0) {
    assem_init = true;
    ring1_2 = ring_of (0 ∷ 1 ∷ []);
    send_pool = [];
    messages = memory;
  };
  taking = record {
    place = away;
    packet = packet 0 0;
    locals = record { loop = syncing; packet_seq = 0; tmp_frame = none };
  };
}

supplied-begun :
    Run calm listed
      (IsCalm calm listed listed-Lawful true frame_pool_size)
      (launched calm listed listed-Lawful idle (packet 0 0) (as_started first_one.0))
      supplied
unfolding start consumer_access access_at warm_up round new_consumer
supplied-begun =
    next (next (next here tt starts) tt (delivers (ring_of (0 ∷ 1 ∷ [])) [] memory memory-AreBytes))
      tt (consumes _ _ refl)

boot-goes_well_example :
    IsOrderly listed true frame_pool_size supplied
    × ((t : Channel listed × Taking) × (consumer_access calm listed (supplied.chan, supplied.taking)
          ≡ ok t))
    × ((t : Channel listed × Sending × Sender) × (send_access calm listed
            (supplied.chan, supplied.sending, supplied.sender)
          ≡ ok t))
boot-goes_well_example =
    boot-goes_well calm listed listed-Lawful maker maker-IsMaker two_ports machine cpu_sets (pos 0)
      (1 ∷ 2 ∷ []) memory (λ _. blank) nothing tt stopped idle started.0 0 first_one.0 (packet 0 0)
      supplied refl memory-AreBytes (λ f. record { no_packets = refl; no_flags = λ i _. refl })
      started.1 first_one.1 supplied-begun tt
