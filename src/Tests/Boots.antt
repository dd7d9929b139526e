-- ===== src/Tests/Boots.antt =====
-- The theorems about `main` as a whole, on two ports and two worker lcores.
use dpdk_udp_receiver.Common.{
  zero, suc, List, map, Bytes, get_elem?, get_elem?-zero, none, some, ℕ, ◌<◌, ◌≡◌, ◌≢◌, refl, arith,
  Bool, true, false, [], ◌∷◌, ltb, ◌==◌, length, All, pos, if◌then◌else◌,
}
use dpdk_udp_receiver.Dpdk.Listed.{ListRing, listed, listed-Lawful}
use dpdk_udp_receiver.Cpus.{CpuSets}
use dpdk_udp_receiver.Cpus.Apart.{IsCpuSets, Apart}
use dpdk_udp_receiver.Boot.{Machine, Running, boot, waits}
use dpdk_udp_receiver.Boot.Devices.{IsApart}
use dpdk_udp_receiver.Channel.{Channel, Packet, packet_at}
use dpdk_udp_receiver.Assemble.Frames.{Apart as HasOwnRow}
use dpdk_udp_receiver.Assemble.{new_consumer}
use dpdk_udp_receiver.Setup.{frame_pool_size}
use dpdk_udp_receiver.Pipeline.{here}
use dpdk_udp_receiver.Pipeline.Safety.{IsSafe}
use dpdk_udp_receiver.Boot.Channels.{boot-IsSafe, boot-AreReady, boot-Apart}
use dpdk_udp_receiver.Boot.Starts.{IsUsable, IsWorking, boot-eq-waits}
use dpdk_udp_receiver.Tests.{packet_bytes, idle, memory-AreBytes, everything, memory, blank}
use dpdk_udp_receiver.Tests.Setups.{maker, maker-IsMaker}
use dpdk_udp_receiver.Tests.Devices.{two_ports, two_ports-IsEthdev, stopped}

-- Sets of CPUs as functions. Adding a CPU beyond the last changes nothing.
abbrev pub cpu_sets : CpuSets
cpu_sets = record {
  Mask = ℕ → Bool;
  cpu_zero = λ m cpu. false;
  cpu_set = λ a m cpu. if a == cpu then (if ltb a 1024 then true else m cpu) else m cpu;
  cpu_isset = λ cpu m. m cpu;
}

pub cpu_sets-IsCpuSets : IsCpuSets cpu_sets
cpu_sets-IsCpuSets = record { isset_zero = λ cpu m. refl; isset_set = λ a b m h. ground arith }

abbrev pub machine : Machine two_ports
machine = record {
  count_avail = λ s. 2;
  each_dev = λ s. 0 ∷ 1 ∷ [];
  pktmbuf_pool_create = λ n s. (true, s);
  zmalloc_index = λ i. true;
  malloc_tmp = λ i. true;
}

abbrev pub nothing : ℕ → Bool
nothing cpu = false

pub two_ports-IsApart : (port other : ℕ) → port ≢ other → IsApart two_ports (λ p s. s p) port other
two_ports-IsApart port other h = record {
  info_get_keeps = λ s k. k;
  configure_keeps = λ rx tx offloads s k. k;
  adjust_keeps = λ s k. k;
  rx_keeps = λ q nb s k. k;
  tx_keeps = λ q nb offloads s k. k;
  start_keeps = λ s k. ground (arith, k);
  macaddr_keeps = λ s k. k;
}

two_ports-IsUsable : (port : ℕ) → port < 2 → IsUsable two_ports port
two_ports-IsUsable port h = record {
  valid = λ s. ground (arith, h);
  info_get = λ s. refl;
  configure = λ rx tx offloads s. refl;
  adjust = λ s. refl;
  rx_queue_setup = λ q nb s. refl;
  tx_queue_setup = λ q nb offloads s. refl;
  start = λ s. refl;
  macaddr_get = λ s. refl;
}

pub machine-IsWorking : IsWorking two_ports machine
machine-IsWorking = record {
  some_port = λ s. refl;
  pool_made = λ n s. refl;
  index_made = λ i. refl;
  tmp_made = λ i. refl;
  usable = λ s. (two_ports-IsUsable 0 (omega arith), (two_ports-IsUsable 1 (omega arith), tt));
}

-- What runs then.
abbrev running : Running listed two_ports cpu_sets
running =
    (boot-eq-waits everything listed maker two_ports machine cpu_sets 0 (1 ∷ 2 ∷ []) memory
      (λ _. blank) nothing tt stopped (λ name size s. tt) (λ name n s. tt) machine-IsWorking
      (omega arith)).0

running-waits :
    boot everything listed maker two_ports machine cpu_sets
      (pos 0)
      (1 ∷ 2 ∷ [])
      memory
      (λ _. blank)
      nothing
      tt
      stopped
    ≡ waits running
running-waits =
    (boot-eq-waits everything listed maker two_ports machine cpu_sets 0 (1 ∷ 2 ∷ []) memory
      (λ _. blank) nothing tt stopped (λ name size s. tt) (λ name n s. tt) machine-IsWorking
      (omega arith)).1

-- The first of the six channels.
running-first : (c : Channel listed) × (get_elem? running.channels 0 ≡ some c)
running-first =
    get_elem?-zero running.channels 5
      (boot-AreReady everything listed maker two_ports machine cpu_sets (pos 0) (1 ∷ 2 ∷ []) memory
        (λ _. blank) nothing tt stopped listed-Lawful maker-IsMaker (λ p s. s p) two_ports-IsEthdev
        two_ports-IsApart idle running memory-AreBytes
        (λ f. record { no_packets = refl; no_flags = λ i _. refl }) running-waits).0

boot-IsSafe_example :
    (length running.channels ≡ 6)
    × (running-first.0.timer_init ≡ true)
    × IsSafe everything listed listed-Lawful frame_pool_size (record {
      chan = record (running-first.0) { timer_init = false };
      consumer = new_consumer;
      wait = none;
      sender = idle;
    })
    × All (λ port. running.devices port ≡ true) (0 ∷ 1 ∷ [])
boot-IsSafe_example =
    boot-IsSafe everything listed maker two_ports machine cpu_sets (pos 0) (1 ∷ 2 ∷ []) memory
      (λ _. blank) nothing tt stopped listed-Lawful maker-IsMaker (λ p s. s p) two_ports-IsEthdev
      two_ports-IsApart idle running 0 running-first.0 _ memory-AreBytes
      (λ f. record { no_packets = refl; no_flags = λ i _. refl }) running-waits running-first.1 here

-- The buffer 99 holds the last packet of the frame 2, the others those of the frame 3.
abbrev buffers : ℕ → Bytes
buffers o = if o == 99 then packet_bytes 2 43 else packet_bytes 3 o

abbrev down : ℕ → List ℕ
down zero = []
down (suc n) = n ∷ down n

abbrev arrived : ℕ → List Packet
arrived n = map (λ o. packet_at (buffers o)) (down n)

abbrev full_ring : ListRing
full_ring = record { items = 99 ∷ down 44; room = 100 }

boot-Apart_example : All (λ p. All (Apart cpu_sets cpu_sets-IsCpuSets p) running.pins) running.pins
boot-Apart_example =
    boot-Apart everything listed maker two_ports machine cpu_sets (pos 0) (1 ∷ 2 ∷ []) memory
      (λ _. blank) nothing tt stopped cpu_sets-IsCpuSets running (omega arith) running-waits
