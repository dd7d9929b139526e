-- ===== src/Timer/Sums.antt =====
-- What the timer thread reports, second by second, and what it misses.
use dpdk_udp_receiver.Common.{ℕ, ◌+◌, ◌-◌, ◌%◌, ◌^◌, ◌<◌, ◌≡◌, arith, List, [], ◌∷◌, All}
use dpdk_udp_receiver.Dpdk.{Dpdk}
use dpdk_udp_receiver.Channel.{Channel}
use dpdk_udp_receiver.Timer.{report}

-- Each report has two readings of a counter. The last of the second ones, where the counter began
-- with `n`.
unfoldable pub last_reading : ℕ → List (ℕ × ℕ) → ℕ
last_reading n [] = n
last_reading n ((first, second) ∷ rs) = last_reading second rs

-- What was counted between the two readings of each report.
unfoldable pub missed : List (ℕ × ℕ) → ℕ
missed [] = 0
missed ((first, second) ∷ rs) = (second + 2 ^ 32 - first) % 2 ^ 32 + missed rs

module _ (d : Dpdk) where
  -- The sum of what is reported as `diff_count` when `global_count` is read as each pair of a list.
  unfoldable pub reported : List (ℕ × ℕ) → Channel d → ℕ
  reported [] c = 0
  reported ((first, second) ∷ rs) c =
      let ((diff_count, diff_forward), c') =
        report d second c.forward_packet (record c { global_count = first }) in
      diff_count + reported rs c'

  -- Whatever the two readings of `global_count` in each report are, also past its wrap-around: the
  -- differences that are reported, and what is counted between the two readings of a report and so
  -- never reported, add up, modulo 2 ^ 32, to what the counter has grown by since the value
  -- remembered at first.
  pub report-sum :
      (rs : List (ℕ × ℕ)) (c : Channel d)
      → c.last_count < 2 ^ 32
      → All (λ (r : ℕ × ℕ). (r.0 < 2 ^ 32) × (r.1 < 2 ^ 32)) rs
      → (c.last_count + reported rs c + missed rs) % 2 ^ 32 ≡ last_reading c.last_count rs
  unfolding reported last_reading report missed
  report-sum [] c h k = omega (arith, h)
  report-sum ((first, second) ∷ rs) c h k =
      let c' = (report d second c.forward_packet (record c { global_count = first })).1 in
      omega (arith, h, k.0.0, k.0.1, report-sum rs c' k.0.1 k.1)
