-- ===== src/Tests/Starts.antt =====
-- How the threads of the repeater begin, and how their buffers go round.
use dpdk_udp_receiver.Common.{ℕ, ◌≡◌, refl, arith, true, Option, none, some, [], ◌∷◌, ◌++◌, ok}
use dpdk_udp_receiver.Dpdk.Listed.{listed, listed-Lawful}
use dpdk_udp_receiver.Repeater.{Desk}
use dpdk_udp_receiver.Repeater.Buffers.{thread1, thread2, IsTight, take_turns, take_turns-IsTight}
use dpdk_udp_receiver.Repeater.Startup.{Directory, Startup, at_start, steps, commands, serves}
use dpdk_udp_receiver.Repeater.Startup.Served.{again, steps-serve}
use dpdk_udp_receiver.Repeater.Startup.Waits.{Found, IsDirectory, steps-agree}
use dpdk_udp_receiver.Tests.Setups.{upto, length-upto}
use dpdk_udp_receiver.Tests.Routes.{numbered, table}

-- One ring and one pool, the last ones made.
abbrev directory : Directory
directory = record {
  State = Option ℕ × Option ℕ;
  ring_create = λ name n s. (some 500, (some 500, s.1));
  mempool_create = λ name n s. (some 600, (s.0, some 600));
  ring_lookup = λ name s. s.0;
  mempool_lookup = λ name s. s.1;
}

directory-IsDirectory : IsDirectory directory
directory-IsDirectory = record {
  ring_found = λ name n r s e. e;
  mempool_found = λ name n m s e. e;
  ring_stays = λ name other n s. refl;
}

steps-agree_example :
    (y : Startup directory) × (steps directory
        (thread2 ∷ thread1 ∷ thread1 ∷ thread2 ∷ thread1 ∷ thread1 ∷ thread2 ∷ [])
        (at_start directory (none, none))
      ≡ ok y)
    × Found directory y.second y
steps-agree_example =
    steps-agree directory directory-IsDirectory (λ name n s. tt) (λ name n s. tt)
      (thread2 ∷ thread1 ∷ thread1 ∷ thread2 ∷ thread1 ∷ thread1 ∷ thread2 ∷ []) (none, none)

-- All 128 buffers are free.
abbrev full_desk : Desk listed numbered
full_desk = record {
  app_id_ring = record { items = []; room = 127 };
  app_id_mempool = upto 128;
  messages = λ _. record { dhsm_id = 9; channel_id = 9; flag = true };
  maker = record { x = 15; y = true };
  table = table;
  rings = (7 ∷ 8 ∷ [], 9);
}

take_turns-IsTight_example :
    IsTight listed numbered
      (take_turns listed numbered (thread2 ∷ thread2 ∷ thread1 ∷ []) full_desk)
take_turns-IsTight_example =
    take_turns-IsTight listed numbered listed-Lawful (thread2 ∷ thread2 ∷ thread1 ∷ []) full_desk
      (record {
        capacity = refl;
        few = omega arith;
        most = omega (arith, length-upto 128);
        least = omega (arith, length-upto 128);
      })

steps-serve_example :
    (y : Startup directory) × (steps directory
        ((thread2 ∷ thread1 ∷ thread1 ∷ []) ++ again thread1 4 (again thread2 4 []))
        (at_start directory (none, none))
      ≡ ok y)
    × (y.first ≡ serves)
    × (y.second ≡ commands y.app_id_ring y.app_id_mempool)
steps-serve_example =
    steps-serve directory directory-IsDirectory (λ name n s. tt) (λ name n s. tt)
      (thread2 ∷ thread1 ∷ thread1 ∷ []) (none, none)
