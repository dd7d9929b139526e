-- ===== src/Repeater/Launch.antt =====
-- `main` of repeater.cpp: it starts the two threads and places them on CPUs.
use dpdk_udp_receiver.Common.{
  ℕ, ◌≡◌, refl, arith, ◌==◌, if◌then◌else◌, ℤ, pos, is_negative, Result, ok, panic,
}
use dpdk_udp_receiver.Cpus.{CpuSets, single}
use dpdk_udp_receiver.Cpus.Apart.{IsCpuSets, single-isset}

module _ (sets : CpuSets) where
  -- The masks of `thread1` and `thread2`. `eal` is what rte_eal_init returns, `mask` the
  -- uninitialised variable.
  unfoldable pub launch : ℤ → sets.Mask → Result (sets.Mask × sets.Mask)
  launch eal mask =
      let first = single sets 1 mask in
      let second = single sets 2 first in if is_negative eal then panic else ok (first, second)

  -- When the environment starts, `thread1` has CPU 1 and no other, and `thread2` has CPU 2 and no
  -- other.
  pub launch-apart :
      (laws : IsCpuSets sets) (n : ℕ) (mask : sets.Mask)
      → (first second : sets.Mask) × (launch (pos n) mask ≡ ok (first, second))
        × ((cpu : ℕ) → sets.cpu_isset cpu first ≡ (1 == cpu))
        × ((cpu : ℕ) → sets.cpu_isset cpu second ≡ (2 == cpu))
  unfolding launch
  launch-apart laws n mask = (
    _,
    _,
    refl,
    λ cpu. single-isset sets laws 1 cpu mask (omega arith),
    λ cpu. single-isset sets laws 2 cpu _ (omega arith),
  )
