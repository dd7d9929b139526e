-- ===== src/Tests/Queued.antt =====
-- The theorems about the threads of Functions.h, with the frames 60 to 66 in the slots 3 to 9.
use dpdk_udp_receiver.Common.{
  ℕ, ◌+◌, ◌≡◌, refl, arith, ==_iff, Option, none, some, List, [], ◌∷◌, ◌++◌, map, ltb, leb, ◌&&◌,
  if◌then◌else◌, ok, All,
}
use dpdk_udp_receiver.Channel.{Frame}
use dpdk_udp_receiver.Queues.{QueueArg, skip_first, Producer, Post, aligns, posts, run}
use dpdk_udp_receiver.Queues.Contents.{IsQueued, waiting, content}
use dpdk_udp_receiver.Queues.Order.{Advanced, send_all, run-Advanced}
use dpdk_udp_receiver.Queues.Drained.{rounds_of, run-Drained}
use dpdk_udp_receiver.Queues.Skipped.{Skipped, skip_first-Skipped}
use dpdk_udp_receiver.Tests.{blank}

abbrev complete : Frame
complete = record blank { count = 44 }

abbrev slots : ℕ → Option ℕ
slots id = if leb 3 id && ltb id 10 then some (57 + id) else none

-- The producer keeps what it was given.
abbrev keeper : Producer
keeper = record { State = List (List ℕ); send_async = λ m ms. ms ++ (m ∷ []) }

abbrev queued : Post keeper
queued = record {
  arg = record {
    index = slots;
    frames = λ f. complete;
    frame_queue = 5 ∷ 3 ∷ [];
    queue_to_send = 4 ∷ [];
  };
  tmp = λ o. 0;
  producer = [];
}

queued-IsQueued : IsQueued queued.arg
queued-IsQueued = record {
  once = λ id. ground (arith, ==_iff 4 id, ==_iff 5 id, ==_iff 3 id);
  small = (omega arith, (omega arith, (omega arith, tt)));
  present = (tt, tt);
}

run-Advanced_example :
    Advanced keeper queued (run keeper (posts ∷ aligns ∷ posts ∷ posts ∷ []) queued)
run-Advanced_example =
    run-Advanced keeper (posts ∷ aligns ∷ posts ∷ posts ∷ []) queued queued-IsQueued

run-Drained_example :
    (t : Post keeper) × (run keeper (rounds_of aligns 2 ++ rounds_of posts 3) queued ≡ ok t)
    × (waiting t.arg ≡ [])
    × All (λ id. t.arg.index id ≡ none) (4 ∷ 5 ∷ 3 ∷ [])
    × (t.producer ≡ send_all keeper (map (content queued.arg) (4 ∷ 5 ∷ 3 ∷ [])) [])
run-Drained_example =
    run-Drained keeper queued queued-IsQueued
      ((omega arith, 62, refl, refl), ((omega arith, 60, refl, refl), tt))

abbrev seven : QueueArg
seven = record {
  index = slots;
  frames = λ f. complete;
  frame_queue = 3 ∷ 4 ∷ 5 ∷ 6 ∷ 7 ∷ 8 ∷ 9 ∷ [];
  queue_to_send = [];
}

skip_first-Skipped_example : Skipped 5 seven.frame_queue seven (skip_first seven)
skip_first-Skipped_example =
    skip_first-Skipped seven
      (λ id. ground (
        arith,
        ==_iff 3 id,
        ==_iff 4 id,
        ==_iff 5 id,
        ==_iff 6 id,
        ==_iff 7 id,
        ==_iff 8 id,
        ==_iff 9 id,
      ))
      (
        (omega arith, tt),
        ((omega arith, tt), ((omega arith, tt), ((omega arith, tt), ((omega arith, tt), tt)))),
      )
