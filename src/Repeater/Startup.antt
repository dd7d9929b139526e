-- ===== src/Repeater/Startup.antt =====
-- How `thread1` and `thread2` of repeater.cpp begin: `thread1` makes the ring and the pool and sets
-- the flag `init`, and `thread2` waits for the flag and looks both up by their names. A step is one
-- call or one access to the flag. Sleeping is left out.
pub mod Waits
pub mod Served
use dpdk_udp_receiver.Common.{
  ℕ, Bool, true, false, Option, none, some, List, [], ◌∷◌, ◌>>=◌, Result, ok, panic, if◌then◌else◌,
}
use dpdk_udp_receiver.Text.{codes}
use dpdk_udp_receiver.Repeater.Buffers.{app_id_ring_size, Side, thread1, thread2}

-- rte_ring_create, rte_mempool_create, rte_ring_lookup and rte_mempool_lookup, parameters of the
-- model. They give the address of the ring or pool, or none for the null pointer.
pub record Directory : Type 1 where
  pub State : Type 0
  pub ring_create : List ℕ → ℕ → State → Option ℕ × State
  pub mempool_create : List ℕ → ℕ → State → Option ℕ × State
  pub ring_lookup : List ℕ → State → Option ℕ
  pub mempool_lookup : List ℕ → State → Option ℕ

abbrev pub app_id_ring_name : List ℕ
app_id_ring_name = codes "app_id_ring"

abbrev pub app_id_mempool_name : List ℕ
app_id_mempool_name = codes "app_id_mempool"

-- Where `thread1` is: before a call, before the two tests, before the write of the flag, or in its
-- loop.
pub data Phase1 : Type 0 where
  makes_ring makes_mempool tests sets_init serves : Phase1

-- Where `thread2` is, with its locals `r1` and `m1`.
pub data Phase2 : Type 0 where
  waits_init looks_up_ring : Phase2
  looks_up_mempool : Option ℕ → Phase2
  tests_found : Option ℕ → Option ℕ → Phase2
  commands : Option ℕ → Option ℕ → Phase2

-- No null pointer.
abbrev pub is_given : Option ℕ → Bool
is_given none = false
is_given (some a) = true

module _ (e : Directory) where
  -- The globals, and where the threads are.
  pub record Startup : Type 0 where
    pub app_id_ring : Option ℕ
    pub app_id_mempool : Option ℕ
    pub init : Bool
    pub first : Phase1
    pub second : Phase2
    pub state : e.State

  -- At the start of the program.
  unfoldable pub at_start : e.State → Startup
  at_start s = record {
    app_id_ring = none;
    app_id_mempool = none;
    init = false;
    first = makes_ring;
    second = waits_init;
    state = s;
  }

  -- A step of `thread1`.
  unfoldable pub first_step : Phase1 → Startup → Result Startup
  first_step makes_ring x =
      let (r, s) = e.ring_create app_id_ring_name app_id_ring_size x.state in
      ok (record x { app_id_ring = r; first = makes_mempool; state = s })
  first_step makes_mempool x =
      let (m, s) = e.mempool_create app_id_mempool_name app_id_ring_size x.state in
      ok (record x { app_id_mempool = m; first = tests; state = s })
  first_step tests x =
      if is_given x.app_id_mempool
      then (if is_given x.app_id_ring then ok (record x { first = sets_init }) else panic)
      else panic
  first_step sets_init x = ok (record x { init = true; first = serves })
  first_step serves x = ok x

  -- A step of `thread2`.
  unfoldable pub second_step : Phase2 → Startup → Result Startup
  second_step waits_init x = ok (if x.init then record x { second = looks_up_ring } else x)
  second_step looks_up_ring x =
      ok (record x { second = looks_up_mempool (e.ring_lookup app_id_ring_name x.state) })
  second_step (looks_up_mempool r) x =
      ok (record x { second = tests_found r (e.mempool_lookup app_id_mempool_name x.state) })
  second_step (tests_found r m) x =
      if is_given r
      then (if is_given m then ok (record x { second = commands r m }) else panic)
      else panic
  second_step (commands r m) x = ok x

  unfoldable pub step : Side → Startup → Result Startup
  step thread1 x = first_step x.first x
  step thread2 x = second_step x.second x

  -- Steps in any order.
  unfoldable pub steps : List Side → Startup → Result Startup
  steps [] x = ok x
  steps (t ∷ ts) x = do y ← step t x; steps ts y
