-- ===== src/Tests/Shown.antt =====
-- The theorems about what is printed and about CPUs, on concrete inputs.
use dpdk_udp_receiver.Common.{
  ℕ, ◌+◌, ◌<◌, ◌≡◌, refl, arith, Bool, true, [], ◌∷◌, none, ltb, ◌==◌, ◌&&◌, if◌then◌else◌, Bytes,
  update,
}
use dpdk_udp_receiver.Dpdk.Listed.{listed}
use dpdk_udp_receiver.Align.{Wait, check}
use dpdk_udp_receiver.Align.Ending.{check-ends}
use dpdk_udp_receiver.Dump.{print_pkt}
use dpdk_udp_receiver.Dump.ReadBack.{scan, scan-print_pkt}
use dpdk_udp_receiver.Text.{codes, to_string}
use dpdk_udp_receiver.Text.Words.{words}
use dpdk_udp_receiver.Route.{no_bits}
use dpdk_udp_receiver.Route.Printed.{
  numbers, print_vector_map, print_bits, print_bitset_map, print_ring_map, print_map-read,
}
use dpdk_udp_receiver.Affinity.{Scheduler, show_affinity}
use dpdk_udp_receiver.Affinity.Printed.{Shown, show_affinity-Shown}
use dpdk_udp_receiver.Tests.{everything, channel}
use dpdk_udp_receiver.Tests.Boots.{cpu_sets, cpu_sets-IsCpuSets}

-- A packet with the bytes 7, 171 and 0 after its headers.
abbrev dumped : Bytes
dumped o = if o == 42 then 7 else if o == 43 then 171 else 0

dumped-lt : (o : ℕ) → dumped o < 256
dumped-lt o = ground arith

scan-print_pkt_example : scan 0 (print_pkt dumped 3) ≡ 7 ∷ 171 ∷ 0 ∷ []
scan-print_pkt_example = scan-print_pkt dumped 3 dumped-lt

abbrev since_five : Wait
since_five = record { frame = 100; prev_tsc = 5 }

check-ends_example : (check everything listed (6 + 200000001) since_five (channel [] [])).1 ≡ none
check-ends_example =
    check-ends everything listed since_five (λ k. 6 + k) (λ k. channel [] []) refl (omega arith)
      (λ k. omega arith) 200000001 (omega arith) (omega arith)

-- The CPUs 0 to 3 are there, and the last mask that was set is kept.
abbrev four_cpus : Scheduler cpu_sets
four_cpus = record {
  State = ℕ → Bool;
  setaffinity = λ m s. (0, λ cpu. m cpu && ltb cpu 4);
  getaffinity = λ s. ((0, s), s);
}

both : (a b : Bool) → (a && b) ≡ true → a ≡ true
both a b h = ground (arith, h)

show_affinity-Shown_example :
    Shown cpu_sets four_cpus
      (λ cpu. true)
      (λ cpu. true)
      (show_affinity cpu_sets four_cpus (λ cpu. true) (λ cpu. true))
show_affinity-Shown_example =
    show_affinity-Shown cpu_sets cpu_sets-IsCpuSets four_cpus (λ cpu. true) (λ cpu. true)
      (λ m t cpu ok h. both (m cpu) (ltb cpu 4) h)

print_map-read_example :
    (numbers (print_vector_map ((3, 1 ∷ 2 ∷ []) ∷ [])) ≡ 3 ∷ 1 ∷ 3 ∷ 2 ∷ [])
    × (words [] (print_bitset_map ((1, update no_bits 3 true) ∷ []))
        ≡ codes "1" ∷ codes "0000000000001000" ∷ [])
    × (numbers (print_ring_map ((3, none ∷ none ∷ []) ∷ [])) ≡ 3 ∷ 2 ∷ [])
unfolding print_bits to_string
print_map-read_example =
    print_map-read ((3, 1 ∷ 2 ∷ []) ∷ []) ((1, update no_bits 3 true) ∷ [])
      ((3, none ∷ none ∷ []) ∷ []) ((omega arith, (omega arith, (omega arith, tt))), tt)
      ((omega arith, omega arith), tt)
