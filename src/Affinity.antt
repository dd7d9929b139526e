-- ===== src/Affinity.antt =====
-- thread_affinity.cpp and thread_affinity_c.cpp: two programs that place threads on CPUs. The
-- threads of the first do nothing but count.
pub mod Printed
pub mod Placed
use dpdk_udp_receiver.Common.{
  ℕ, zero, suc, ◌+◌, Bool, true, false, List, [], ◌∷◌, ◌==◌, if◌then◌else◌,
}
use dpdk_udp_receiver.Cpus.{CpuSets, single}

-- THREAD_NUMS, and CPU_SETSIZE of sched.h.
abbrev pub thread_nums : ℕ
thread_nums = 3

abbrev pub cpu_setsize : ℕ
cpu_setsize = 1024

-- pthread_setaffinity_np and pthread_getaffinity_np for the calling thread, parameters of the
-- model. They give an error number, 0 for success.
pub record Scheduler (sets : CpuSets) : Type 1 where
  pub State : Type 0
  pub setaffinity : sets.Mask → State → ℕ × State
  pub getaffinity : State → (ℕ × sets.Mask) × State

-- How `main` of thread_affinity_c.cpp exits: with EXIT_FAILURE after an error, or after it has
-- printed a line for each CPU of the list.
pub data Exit : Type 0 where
  fails : ℕ → Exit
  prints : List ℕ → Exit

module _ (sets : CpuSets) where
  -- `main` of thread_affinity.cpp from thread `i` on, with `n` threads left: the mask of each
  -- thread.
  unfoldable pub place_threads : ℕ → ℕ → sets.Mask → List sets.Mask
  place_threads zero i cpuset = []
  place_threads (suc n) i cpuset =
      let placed = single sets i cpuset in placed ∷ place_threads n (i + 1) placed

  -- The loop over CPU_SET from CPU `j` on, with `n` rounds left.
  unfoldable pub set_cpus : ℕ → ℕ → sets.Mask → sets.Mask
  set_cpus zero j cpuset = cpuset
  set_cpus (suc n) j cpuset = set_cpus n (j + 1) (sets.cpu_set j cpuset)

  -- The loop that prints, likewise.
  unfoldable pub list_cpus : ℕ → ℕ → sets.Mask → List ℕ
  list_cpus zero j cpuset = []
  list_cpus (suc n) j cpuset =
      let rest = list_cpus n (j + 1) cpuset in if sets.cpu_isset j cpuset then j ∷ rest else rest

  -- `main` of thread_affinity_c.cpp. `cpuset` is the uninitialised variable.
  unfoldable pub show_affinity : (k : Scheduler sets) → sets.Mask → k.State → Exit
  show_affinity k cpuset s =
      let (failed, s1) = k.setaffinity (set_cpus 8 0 (sets.cpu_zero cpuset)) s in
      let ((unread, found), s2) = k.getaffinity s1 in
      if failed == 0
      then (if unread == 0 then prints (list_cpus cpu_setsize 0 found) else fails unread)
      else fails failed
