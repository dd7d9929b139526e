-- ===== src/Accesses/Fresh.antt =====
-- A channel as `main` makes it is in order before the first access.
use dpdk_udp_receiver.Common.{ℕ, Bool, ap, arith, times, length}
use dpdk_udp_receiver.Dpdk.{Dpdk}
use dpdk_udp_receiver.Channel.{Packet, Channel}
use dpdk_udp_receiver.Assemble.{Consumer}
use dpdk_udp_receiver.Setup.{frame_pool_size}
use dpdk_udp_receiver.Setup.Fresh.{IsNew}
use dpdk_udp_receiver.Accesses.{away, seeks, idles}
use dpdk_udp_receiver.Accesses.Spread.{IsOrdered}

-- A channel that nothing has happened to is in order, with the frames of its pool.
pub IsNew-IsOrdered :
    (d : Dpdk) (strict : Bool) (c : Channel d) (p : Packet) (k : Consumer)
    → IsNew d c
    → IsOrdered d strict frame_pool_size c away p k seeks idles
IsNew-IsOrdered d strict c p k h =
    let announced = λ (o : ℕ). ap (times o) h.announced in
    let passed = λ (o : ℕ). ap (times o) h.passed in
    record {
      tidy = record {
        once = λ f. omega (arith, h.distinct f, announced f, passed f);
        listed = λ s f e. absurd (ground (arith, h.unindexed s));
        found = λ f l. absurd (omega (arith, announced f, passed f, l));
        filled = λ q f l. absurd (omega (arith, announced f, passed f, l));
        cleared = λ q f l. h.zeroed f;
      };
      knows = tt;
      patient = λ q. tt;
      counted = omega (arith, h.many, ap (length {0}) h.announced, ap (length {0}) h.passed);
      room_announced = h.room;
      room_passed = h.room_passed;
      bytes = h.bytes;
    }
