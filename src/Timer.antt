-- ===== src/Timer.antt =====
-- `timer_thread` of basicfwd.cpp: it lets the consumer threads of all channels begin, and then
-- reports the counters of each again and again. Sleeping and printing are left out.
pub mod Sums
use dpdk_udp_receiver.Common.{
  ℕ, ◌+◌, ◌-◌, ◌%◌, ◌^◌, Bool, true, ◌&&◌, List, [], ◌∷◌, map, if◌then◌else◌, Result, ok, fault,
}
use dpdk_udp_receiver.Dpdk.{Dpdk}
use dpdk_udp_receiver.Channel.{Config, Channel}

module _ (d : Dpdk) where
  -- `send_thread_init = true`, by this thread without KAZE and by the send thread with it.
  unfoldable pub prepare : Channel d → Channel d
  prepare c = record c { send_thread_init = true }

  -- `assem_init = true`.
  unfoldable pub start : Channel d → Channel d
  start c = record c { assem_init = true }

  -- `diff_count` and `diff_forward`, as the differences of `unsigned int` that they are made from,
  -- and the channel with the counters remembered. Each counter is loaded twice, while the other
  -- threads go on counting: for the difference, and then, as `count` and `forward`, to be
  -- remembered.
  unfoldable pub report : ℕ → ℕ → Channel d → (ℕ × ℕ) × Channel d
  report count forward c = (
    (
      (c.global_count + 2 ^ 32 - c.last_count) % 2 ^ 32,
      (c.forward_packet + 2 ^ 32 - c.last_forward) % 2 ^ 32,
    ),
    record c { last_count = count; last_forward = forward },
  )

module _ (cfg : Config) (d : Dpdk) where
  -- The loop over all channels before the wait.
  unfoldable pub prepare_all : List (Channel d) → List (Channel d)
  prepare_all cs = if cfg.kaze then cs else map (prepare d) cs

  -- The wait is over. With no channel, `(*args_vec)[0]` is out of bounds.
  unfoldable pub is_ready : List (Channel d) → Result Bool
  is_ready [] = fault
  is_ready (c ∷ cs) = ok (c.timer_init && c.send_thread_init)

  -- The loop over all channels after the wait.
  unfoldable pub start_all : List (Channel d) → List (Channel d)
  start_all cs = map (start d) cs
