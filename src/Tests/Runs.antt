-- ===== src/Tests/Runs.antt =====
-- The theorems about the threads together, at a run of all of them: a frame is assembled from one
-- packet, given up, and sent.
use dpdk_udp_receiver.Common.{ℕ, ◌≡◌, refl, arith, ==_iff, [], ◌∷◌}
use dpdk_udp_receiver.Dpdk.Listed.{listed, listed-Lawful}
use dpdk_udp_receiver.Channel.{new_channel, packet_at}
use dpdk_udp_receiver.Assemble.{
  round, poll, handle, discard, run_packet, count_packet, assemble, open_tmp, take_frame,
  open_frame, copy_packet, new_consumer,
}
use dpdk_udp_receiver.Align.{align, check, pass_on, drop_frame, timed_out, zero_rows}
use dpdk_udp_receiver.Send.{send, send_frame, give_back}
use dpdk_udp_receiver.Timer.{start}
use dpdk_udp_receiver.Pipeline.{System, consumes, aligns, delivers, starts, Reach, here, next}
use dpdk_udp_receiver.Pipeline.Safety.{IsSafe, Reach-IsSafe}
use dpdk_udp_receiver.Pipeline.Promises.{IsFresh, fresh_system, fresh-IsSafe}
use dpdk_udp_receiver.Tests.{idle, memory-AreBytes, everything, blank, memory, ring_of, value_of}

fresh :
    IsFresh everything listed listed-Lawful 2
      (100 ∷ 101 ∷ [])
      (ring_of [])
      (ring_of [])
      memory
      (λ _. blank)
fresh = record {
  distinct = λ o. ground (arith, ==_iff 100 o, ==_iff 101 o);
  many = refl;
  nothing_announced = refl;
  nothing_passed = refl;
  room_announced = omega arith;
  room_passed = omega arith;
  bytes = memory-AreBytes;
  zeroed = λ f h. record { no_packets = refl; no_flags = λ i _. refl };
}

abbrev made : System listed
made =
    fresh_system everything listed listed-Lawful 2 0 (100 ∷ 101 ∷ []) [] (ring_of []) (ring_of [])
      (ring_of []) memory (λ _. blank) idle

made-IsSafe : IsSafe everything listed listed-Lawful 2 made
made-IsSafe =
    fresh-IsSafe everything listed listed-Lawful 2 0 (100 ∷ 101 ∷ []) [] (ring_of []) (ring_of [])
      (ring_of []) memory (λ _. blank) idle fresh

-- A round of each thread.
abbrev consume : System listed → System listed
consume x =
    let (c, k) = value_of (x.chan, x.consumer) (round everything listed (x.chan, x.consumer)) in
    record x { chan = c; consumer = k }

abbrev align_at : ℕ → System listed → System listed
align_at tsc x =
    let (c, w) = align everything listed tsc (x.chan, x.wait) in record x { chan = c; wait = w }

abbrev send_on : System listed → System listed
send_on x =
    let (c, s) = value_of (x.chan, x.sender) (send listed (x.chan, x.sender)) in
    record x { chan = c; sender = s }

-- The last packet of a frame and a first one are delivered, and the threads begin.
abbrev delivered : System listed
delivered = record made {
  chan = record (made.chan) {
    ring1_2 = ring_of (43 ∷ 0 ∷ []);
    send_pool = 5 ∷ [];
    messages = memory;
  };
}

abbrev begun : System listed
begun = record delivered { chan = start listed delivered.chan }

made-begun : Reach everything listed made begun
made-begun = next (next here (delivers _ _ _ memory-AreBytes)) starts

abbrev syncs : System listed
syncs = consume begun

abbrev in_sync : System listed
in_sync = consume syncs

abbrev assembled : System listed
assembled = consume in_sync

begun-assembled : Reach everything listed made assembled
unfolding round poll handle discard run_packet count_packet assemble open_tmp take_frame open_frame
    copy_packet packet_at start new_channel new_consumer
begun-assembled =
    next
      (next (next made-begun (consumes _ _ (λ e. ground (arith, e)) refl))
        (consumes _ _ (λ e. ground (arith, e)) refl))
      (consumes _ _ (λ e. ground (arith, e)) refl)

abbrev taken_up : System listed
taken_up = align_at 5 assembled

abbrev passed : System listed
passed = align_at 200000006 taken_up

made-taken_up : Reach everything listed made taken_up
made-taken_up = next begun-assembled (aligns 5 _ _ refl)

made-passed : Reach everything listed made passed
made-passed = next made-taken_up (aligns 200000006 _ _ refl)

Reach-IsSafe_example : IsSafe everything listed listed-Lawful 2 passed
Reach-IsSafe_example = Reach-IsSafe everything listed listed-Lawful 2 made-IsSafe made-passed

-- The frame is given back in the end, and both are free.
both-free : (send_on passed).chan.frame_pool ≡ 100 ∷ 101 ∷ []
unfolding round poll handle discard run_packet count_packet assemble open_tmp take_frame open_frame
    copy_packet packet_at start new_channel new_consumer align check pass_on drop_frame timed_out
    send send_frame give_back zero_rows
both-free = refl
