-- ===== src/Affinity/Placed.antt =====
-- Where thread_affinity.cpp places its threads.
use dpdk_udp_receiver.Common.{ℕ, zero, suc, ◌+◌, ◌≤◌, ◌≡◌, arith, List, [], ◌∷◌, ◌==◌}
use dpdk_udp_receiver.Cpus.{CpuSets}
use dpdk_udp_receiver.Cpus.Apart.{IsCpuSets, single-isset}
use dpdk_udp_receiver.Affinity.{thread_nums, place_threads}

module _ (sets : CpuSets) (laws : IsCpuSets sets) where
  -- The masks of threads from `i` on: each has the CPU with the number of the thread, and no other.
  abbrev pub Alone : ℕ → List sets.Mask → Type 0
  Alone i [] = Unit
  Alone i (m ∷ ms) = ((cpu : ℕ) → sets.cpu_isset cpu m ≡ (i == cpu)) × Alone (i + 1) ms

  place_threads-Alone :
      (n i : ℕ) (cpuset : sets.Mask) → i + n ≤ 1024 → Alone i (place_threads sets n i cpuset)
  unfolding place_threads
  place_threads-Alone zero i cpuset h = tt
  place_threads-Alone (suc n) i cpuset h = (
    λ cpu. single-isset sets laws i cpu cpuset (omega (arith, h)),
    place_threads-Alone n (i + 1) _ (omega (arith, h)),
  )

  -- Thread 0, 1 and 2 of the program are placed on CPU 0, 1 and 2.
  pub three_threads-Alone : (cpuset : sets.Mask) → Alone 0 (place_threads sets thread_nums 0 cpuset)
  three_threads-Alone cpuset = place_threads-Alone 3 0 cpuset (omega arith)
