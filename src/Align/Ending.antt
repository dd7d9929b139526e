-- ===== src/Align/Ending.antt =====
-- The wait of the align thread for a frame comes to an end.
use dpdk_udp_receiver.Common.{ℕ, zero, suc, ◌+◌, ◌*◌, ◌^◌, ◌≤◌, ◌<◌, ◌≡◌, inr, arith, true, none}
use dpdk_udp_receiver.Dpdk.{Dpdk}
use dpdk_udp_receiver.Channel.{Config, Channel, timer_resolution_cycles}
use dpdk_udp_receiver.Align.{Wait, check}
use dpdk_udp_receiver.Align.Waiting.{check_iff}

le_suc : (a b c k : ℕ) → a + k ≤ b → b < c → a + suc k ≤ c
le_suc a b c k h l = omega arith

-- A clock that goes on with each reading is `k` further after `k` readings.
readings_advance : (t : ℕ → ℕ) → ((k : ℕ) → t k < t (suc k)) → (k : ℕ) → t 0 + k ≤ t k
readings_advance t h zero = omega arith
readings_advance t h (suc k) =
    let before = readings_advance t h k in
    let after = h k in le_suc (t 0) (t k) (t (suc k)) k before after

module _ (cfg : Config) (d : Dpdk) where
  -- Under DROP, when the clock goes on from each round of the wait to the next and has not wrapped:
  -- a round that comes more than 200000000 rounds after the first ends the wait, whatever the other
  -- threads do to the channel in the meantime.
  pub check-ends :
      (w : Wait) (t : ℕ → ℕ) (c : ℕ → Channel d)
      → cfg.drop ≡ true
      → w.prev_tsc ≤ t 0
      → ((k : ℕ) → t k < t (suc k))
      → (k : ℕ) → timer_resolution_cycles * 10 < k
      → t k < 2 ^ 64
      → (check cfg d (t k) w (c k)).1 ≡ none
  check-ends w t c drop from h k late small =
      let far = readings_advance t h k in
      (check_iff cfg d (t k) w (c k) (omega arith) small).1 (inr (drop, omega arith))
