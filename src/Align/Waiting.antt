-- ===== src/Align/Waiting.antt =====
-- When the align thread passes a frame on.
use dpdk_udp_receiver.Common.{ℕ, ◌-◌, ◌^◌, ◌*◌, ◌≤◌, ◌<◌, ◌≡◌, ◌↔◌, ◌⊎◌, arith, true, none}
use dpdk_udp_receiver.Dpdk.{Dpdk}
use dpdk_udp_receiver.Channel.{Config, Channel, timer_resolution_cycles}
use dpdk_udp_receiver.Align.{Wait, timed_out, check}

timed_out_iff :
    (prev tsc : ℕ)
    → prev ≤ tsc
    → tsc < 2 ^ 64
    → (timed_out prev tsc ≡ true) ↔ (timer_resolution_cycles * 10 < tsc - prev)
unfolding timed_out
timed_out_iff prev tsc h lt = ground arith

module _ (cfg : Config) (d : Dpdk) where
  -- With a clock that does not go back, the wait for a frame ends exactly when the frame has as
  -- many packets as it is to have, or, under DROP, when more than ten timer periods have passed.
  pub check_iff :
      (tsc : ℕ) (w : Wait) (c : Channel d)
      → w.prev_tsc ≤ tsc
      → tsc < 2 ^ 64
      → ((check cfg d tsc w c).1 ≡ none) ↔ (
          ((c.frames w.frame).packet_num ≤ (c.frames w.frame).count)
          ⊎ ((cfg.drop ≡ true) × (timer_resolution_cycles * 10 < tsc - w.prev_tsc)))
  unfolding check
  check_iff tsc w c h lt = ground (arith, timed_out_iff w.prev_tsc tsc)
