-- ===== src/Repeater/Commands.antt =====
-- The messages that `thread2` makes, one after the other.
use dpdk_udp_receiver.Common.{ℕ, zero, suc, ◌/◌, ◌%◌, ◌≡◌, refl, arith, ◌==◌}
use dpdk_udp_receiver.Repeater.{Maker, new_maker, command, advance}

-- The locals after `n` messages.
unfoldable pub maker_after : ℕ → Maker
maker_after zero = new_maker
maker_after (suc n) = advance (maker_after n)

maker_after_lem : (n : ℕ) → ((maker_after n).x ≡ n % 16) × ((maker_after n).y ≡ (n / 16 % 2 == 0))
unfolding maker_after new_maker advance
maker_after_lem zero = (refl, refl)
maker_after_lem (suc n) = ground (arith, maker_after_lem n)

-- The messages are about the DHSM 0 and the channels from 0 to 15 in turn, over and over; those of
-- the first turn add, those of the second remove, and so on.
pub command-maker_after :
    (n : ℕ)
    → command (maker_after n) ≡ record { dhsm_id = 0; channel_id = n % 16; flag = n / 16 % 2 == 0 }
unfolding command
command-maker_after n = ground (arith, maker_after_lem n)
