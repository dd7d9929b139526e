-- ===== src/Setup.antt =====
-- `main` of basicfwd.cpp, as far as it makes the channels: their rings and pools with the names
-- that they are made under, and what becomes of a call that fails.
pub mod Names
pub mod Fresh
pub mod Starts
use dpdk_udp_receiver.Common.{
  true, ℕ, zero, suc, ◌+◌, ◌*◌, Option, none, some, List, [], ◌∷◌, Bytes,
}
use dpdk_udp_receiver.Dpdk.{Dpdk}
use dpdk_udp_receiver.Channel.{Frame, Channel, new_channel}
use Names.{Place, first, second, third, ring_name, msg_pool_name, frame_pool_name}

-- `ring_size`, `pool_size` and the size of a frame pool, without VM.
abbrev pub ring_size : ℕ
ring_size = 2097152

abbrev pub pool_size : ℕ
pool_size = 2097152

abbrev pub frame_pool_size : ℕ
frame_pool_size = 16384

-- rte_ring_create and rte_mempool_create, a parameter of the model: none for the null pointer.
pub record Makers (d : Dpdk) : Type 1 where
  pub State : Type 0
  pub make_ring : List ℕ → ℕ → State → Option d.Ring × State
  pub make_pool : List ℕ → ℕ → State → Option d.Pool × State

-- A call that may give a null pointer, and what follows it if it does not.
unfoldable pub and_then {ℓ κ ι} :
    {A : Type ℓ} {B : Type κ} {S : Type ι} → Option A × S → (A → S → Option B × S) → Option B × S
and_then (none, s) f = (none, s)
and_then (some a, s) f = f a s

-- What the first loop makes for a channel.
pub record Links (d : Dpdk) : Type 0 where
  pub ring1_2 : d.Ring
  pub ring2_3 : d.Ring
  pub ring3_4 : d.Ring
  pub send_pool : d.Pool

-- How `main` goes on: it returns -1, it is in rte_panic, or it starts the threads of the channels.
pub data Outcome (d : Dpdk) : Type 0 where
  exits panics : Outcome d
  runs : List (Channel d) → Outcome d

-- `timer_init = true`, by `main` at its end, when the threads are started.
unfoldable pub let_start : (d : Dpdk) → Channel d → Channel d
let_start d c = record c { timer_init = true }

module _ (d : Dpdk) (g : Makers d) where
  -- A round of the first loop.
  unfoldable pub make_links : ℕ → g.State → Option (Links d) × g.State
  make_links i s = and_then (g.make_ring (ring_name first i) ring_size s) λ r1 s1.
      and_then (g.make_ring (ring_name second i) ring_size s1) λ r2 s2.
        and_then (g.make_ring (ring_name third i) ring_size s2) λ r3 s3.
          and_then (g.make_pool (msg_pool_name i) pool_size s3)
            λ m s4. (some (record { ring1_2 = r1; ring2_3 = r2; ring3_4 = r3; send_pool = m }), s4)

  -- The first loop from round `i` on, with `n` rounds left.
  unfoldable pub make_all_links : ℕ → ℕ → g.State → Option (List (Links d)) × g.State
  make_all_links zero i s = (some [], s)
  make_all_links (suc n) i s =
      and_then (make_links i s)
        λ l s1. and_then (make_all_links n (i + 1) s1) λ ls s2. (some (l ∷ ls), s2)

  -- The loop over the frame pools.
  unfoldable pub make_frame_pools : ℕ → ℕ → g.State → Option (List d.Pool) × g.State
  make_frame_pools zero i s = (some [], s)
  make_frame_pools (suc n) i s =
      and_then (g.make_pool (frame_pool_name i) frame_pool_size s)
        λ m s1. and_then (make_frame_pools n (i + 1) s1) λ ms s2. (some (m ∷ ms), s2)

  -- The channels from `i` on, with memory that is not yet written.
  unfoldable pub channels :
      (ℕ → Bytes) → (ℕ → Frame) → ℕ → List (Links d) → List d.Pool → List (Channel d)
  channels messages frames i (l ∷ ls) (m ∷ ms) =
      new_channel d i m l.send_pool l.ring1_2 l.ring2_3 l.ring3_4 messages frames
      ∷ channels messages frames (i + 1) ls ms
  channels messages frames i (l ∷ ls) [] = []
  channels messages frames i [] ms = []

  -- With `workers` worker lcores there are `NUM_CHANNELS = workers * 3` channels.
  unfoldable pub set_up : ℕ → (ℕ → Bytes) → (ℕ → Frame) → g.State → Outcome d
  set_up workers messages frames s =
      let (links, s1) = make_all_links (workers * 3) 0 s in
      let (pools, s2) = make_frame_pools (workers * 3) 0 s1 in
      elim links [
        | none ↦ exits
        | some ls ↦ elim pools [ none ↦ panics | some ms ↦ runs (channels messages frames 0 ls ms) ]
      ]
