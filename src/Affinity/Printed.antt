-- ===== src/Affinity/Printed.antt =====
-- What thread_affinity_c.cpp prints.
use dpdk_udp_receiver.Common.{
  ℕ, zero, suc, ◌+◌, ◌≤◌, ◌≡◌, ◌≢◌, refl, ap, ◌∙◌, arith, ==_iff, true, Bool-cases, inl, inr, ltb,
  leb, ◌==◌, ◌&&◌, if◌then◌else◌, times,
}
use dpdk_udp_receiver.Cpus.{CpuSets}
use dpdk_udp_receiver.Cpus.Apart.{IsCpuSets}
use dpdk_udp_receiver.Affinity.{Scheduler, Exit, fails, prints, set_cpus, list_cpus, show_affinity}

module _ (sets : CpuSets) where
  same_isset : (j cpu : ℕ) (m : sets.Mask) → j ≡ cpu → sets.cpu_isset j m ≡ sets.cpu_isset cpu m
  same_isset j cpu m e = ap (λ c. sets.cpu_isset c m) e

  times-list_cpus :
      (n j cpu : ℕ) (m : sets.Mask)
      → times cpu (list_cpus sets n j m)
        ≡ (if leb j cpu && ltb cpu (j + n) && sets.cpu_isset cpu m then 1 else 0)
  unfolding list_cpus
  times-list_cpus zero j cpu m = ground arith
  times-list_cpus (suc n) j cpu m = elim (Bool-cases (sets.cpu_isset j m)) [
    | inl there ↦
        rw there
          (ground (arith, times-list_cpus n (j + 1) cpu m, ==_iff j cpu, same_isset j cpu m, there))
    | inr absent ↦
        rw absent (
          ground (arith, times-list_cpus n (j + 1) cpu m, ==_iff j cpu, same_isset j cpu m, absent))
  ]

  -- The CPUs that were asked for, what the call to set them gave, and the one to get them.
  abbrev asked : sets.Mask → sets.Mask
  asked cpuset = set_cpus sets 8 0 (sets.cpu_zero cpuset)

  abbrev pub set_result : (k : Scheduler sets) → sets.Mask → k.State → ℕ
  set_result k cpuset s = (k.setaffinity (asked cpuset) s).0

  abbrev pub got : (k : Scheduler sets) → sets.Mask → k.State → ℕ × sets.Mask
  got k cpuset s = (k.getaffinity (k.setaffinity (asked cpuset) s).1).0

  -- The three ways to exit.
  abbrev pub Shown : (k : Scheduler sets) → sets.Mask → k.State → Exit → Type 0
  Shown k cpuset s (fails n) =
      (n ≢ 0)
      × (n ≡ (if set_result k cpuset s == 0 then (got k cpuset s).0 else set_result k cpuset s))
  Shown k cpuset s (prints cpus) =
      (set_result k cpuset s ≡ 0)
      × ((got k cpuset s).0 ≡ 0)
      × ((cpu : ℕ)
          → times cpu cpus ≡ (if ltb cpu 8 && sets.cpu_isset cpu (got k cpuset s).1 then 1 else 0))

  module _ (laws : IsCpuSets sets) where
    set_cpus-isset :
        (n j cpu : ℕ) (m : sets.Mask)
        → j + n ≤ 1024
        → sets.cpu_isset cpu (set_cpus sets n j m)
          ≡ (if leb j cpu && ltb cpu (j + n) then true else sets.cpu_isset cpu m)
    unfolding set_cpus
    set_cpus-isset zero j cpu m h = ground arith
    set_cpus-isset (suc n) j cpu m h = ground (
      arith,
      set_cpus-isset n (j + 1) cpu (sets.cpu_set j m),
      laws.isset_set j cpu m,
      ==_iff j cpu,
    )

    asked-isset : (cpuset : sets.Mask) (cpu : ℕ) → sets.cpu_isset cpu (asked cpuset) ≡ ltb cpu 8
    asked-isset cpuset cpu =
        set_cpus-isset 8 0 cpu (sets.cpu_zero cpuset) (omega arith)
        ∙ rw (laws.isset_zero cpu cpuset) (ground arith)

    -- With calls of sched.h that do what they promise, and where the kernel gives a thread no CPU
    -- that was not asked for: thread_affinity_c.cpp ends in failure with the number of the first
    -- call that fails; otherwise it prints each CPU from 0 to 7 that the mask has once, and no
    -- other.
    pub show_affinity-Shown :
        (k : Scheduler sets) (cpuset : sets.Mask) (s : k.State)
        → ((m : sets.Mask) (t : k.State) (cpu : ℕ)
            → (k.setaffinity m t).0 ≡ 0
            → sets.cpu_isset cpu (k.getaffinity (k.setaffinity m t).1).0.1 ≡ true
            → sets.cpu_isset cpu m ≡ true)
        → Shown k cpuset s (show_affinity sets k cpuset s)
    unfolding show_affinity
    show_affinity-Shown k cpuset s within = elim (Bool-cases (set_result k cpuset s == 0)) [
      | inl set ↦ elim (Bool-cases ((got k cpuset s).0 == 0)) [
        | inl read ↦
            rw (set, read)
              (
                (==_iff _ 0).0 set,
                (==_iff _ 0).0 read,
                λ cpu. ground (
                  arith,
                  times-list_cpus 1024 0 cpu (got k cpuset s).1,
                  within (asked cpuset) s cpu ((==_iff _ 0).0 set),
                  asked-isset cpuset cpu,
                ),
              )
        | inr unread ↦ rw (set, unread) (λ e. ground (arith, unread, e), rw set refl)
      ]
      | inr failed ↦ rw failed (λ e. ground (arith, failed, e), rw failed refl)
    ]
