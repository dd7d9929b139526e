-- ===== src/Tests/Repeats.antt =====
-- The theorems about the threads of the repeater, at a run of both.
use dpdk_udp_receiver.Common.{◌/◌, ◌%◌, ◌≡◌, refl, arith, ==_iff, true, [], ◌∷◌, ◌++◌, ◌==◌}
use dpdk_udp_receiver.Dpdk.Listed.{listed, listed-Lawful}
use dpdk_udp_receiver.Route.{RouteTable}
use dpdk_udp_receiver.Repeater.{Desk, command, thread1_round, thread2_round}
use dpdk_udp_receiver.Repeater.Commands.{maker_after, command-maker_after}
use dpdk_udp_receiver.Repeater.Order.{
  Turns, begin, makes, handles, pending, IsOnce, handle_all, Turns-order,
}
use dpdk_udp_receiver.Tests.{ring_of}
use dpdk_udp_receiver.Tests.Routes.{numbered, table}

command-maker_after_example :
    command (maker_after 21) ≡ record { dhsm_id = 0; channel_id = 21 % 16; flag = 21 / 16 % 2 == 0 }
command-maker_after_example = command-maker_after 21

abbrev desk : Desk listed numbered
desk = record {
  app_id_ring = ring_of [];
  app_id_mempool = 30 ∷ 31 ∷ [];
  messages = λ _. record { dhsm_id = 9; channel_id = 9; flag = true };
  maker = record { x = 15; y = true };
  table = table;
  rings = (7 ∷ 8 ∷ [], 9);
}

-- Two messages are made, and one of them is handled.
abbrev made_two : Desk listed numbered
made_two = thread2_round listed numbered (thread2_round listed numbered desk)

turns :
    Turns listed numbered desk
      (([] ++ (command desk.maker ∷ []))
        ++ (command (thread2_round listed numbered desk).maker ∷ []))
      ([] ++ (made_two.messages 30 ∷ []))
      (thread1_round listed numbered made_two)
unfolding thread2_round
turns = handles 30 _ (makes 31 [] (makes 30 (31 ∷ []) begin refl refl) refl refl) refl

Turns-order_example :
    (([] ++ (made_two.messages 30 ∷ []))
        ++ pending listed numbered (thread1_round listed numbered made_two)
      ≡ ([] ++ (command desk.maker ∷ []))
        ++ (command (thread2_round listed numbered desk).maker ∷ []))
    × IsOnce listed numbered (thread1_round listed numbered made_two)
    × (◌≡◌ {A = RouteTable × numbered.State}
        (
          (thread1_round listed numbered made_two).table,
          (thread1_round listed numbered made_two).rings,
        )
        (handle_all numbered ([] ++ (made_two.messages 30 ∷ [])) (table, (7 ∷ 8 ∷ [], 9))))
Turns-order_example =
    Turns-order listed numbered listed-Lawful refl (λ o. ground (arith, ==_iff 30 o, ==_iff 31 o))
      turns
