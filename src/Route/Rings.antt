-- ===== src/Route/Rings.antt =====
-- The named rings of DPDK, as far as the route table makes and frees them: a parameter of the
-- model.
use dpdk_udp_receiver.Common.{ℕ, ◌+◌, ◌<◌, ◌≡◌, Option, none, some, List, [], ◌∷◌, times}

pub record Registry : Type 1 where
  pub State : Type 0
  -- The rings that exist.
  pub live : State → List ℕ
  -- rte_ring_create: none for the null pointer.
  pub create : List ℕ → State → Option ℕ × State
  -- rte_ring_free, which does nothing for the null pointer.
  pub release : Option ℕ → State → State

-- The rings of a list that may hold null pointers.
abbrev pub times_ring : ℕ → Option ℕ → ℕ
times_ring o none = 0
times_ring o (some r) = times o (r ∷ [])

pub record IsRegistry (g : Registry) : Type 0 where
  pub create_adds :
      (o : ℕ) (name : List ℕ) (s : g.State)
      → times o (g.live (g.create name s).1) ≡ times_ring o (g.create name s).0 + times o (g.live s)
  pub release_none :
      (o : ℕ) (s : g.State) → times o (g.live (g.release none s)) ≡ times o (g.live s)
  pub release_some :
      (o r : ℕ) (s : g.State)
      → 0 < times r (g.live s)
      → times o (g.live (g.release (some r) s)) + times o (r ∷ []) ≡ times o (g.live s)
