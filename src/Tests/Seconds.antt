-- ===== src/Tests/Seconds.antt =====
-- The theorem about the reports, at readings that go round.
use dpdk_udp_receiver.Common.{◌+◌, ◌%◌, ◌^◌, ◌≡◌, arith, List, ℕ, [], ◌∷◌}
use dpdk_udp_receiver.Dpdk.Listed.{listed}
use dpdk_udp_receiver.Timer.Sums.{reported, last_reading, missed, report-sum}
use dpdk_udp_receiver.Tests.{channel}

abbrev readings : List (ℕ × ℕ)
readings = (5, 7) ∷ (4294967290, 4294967290) ∷ (20, 23) ∷ []

report-sum_example :
    ((channel [] []).last_count + reported listed readings (channel [] []) + missed readings)
      % 2 ^ 32
    ≡ last_reading (channel [] []).last_count readings
report-sum_example =
    report-sum listed readings (channel [] []) (omega arith)
      ((omega arith, omega arith), ((omega arith, omega arith), ((omega arith, omega arith), tt)))
