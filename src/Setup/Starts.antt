-- ===== src/Setup/Starts.antt =====
-- The set-up comes to an end: with calls that give no null pointer, the threads are started.
use dpdk_udp_receiver.Common.{
  IsGiven, ℕ, zero, suc, ◌+◌, ◌*◌, ◌≡◌, refl, Option, none, some, List, Bytes,
}
use dpdk_udp_receiver.Dpdk.{Dpdk}
use dpdk_udp_receiver.Channel.{Frame, Channel}
use dpdk_udp_receiver.Setup.{
  Makers, Links, Outcome, exits, panics, runs, ring_size, pool_size, frame_pool_size, and_then,
  make_links, make_all_links, make_frame_pools, channels, set_up,
}
use dpdk_udp_receiver.Setup.Names.{ring_name, first, second, third, msg_pool_name, frame_pool_name}

IsGiven-and_then :
    {A B S : Type 0} (r : Option A × S) (f : A → S → Option B × S)
    → IsGiven r.0
    → ((a : A) (s : S) → IsGiven (f a s).0)
    → IsGiven (and_then r f).0
unfolding and_then
IsGiven-and_then (none, s) f h k = absurd h
IsGiven-and_then (some a, s) f h k = k a s

module _ (d : Dpdk) (g : Makers d)
    (rings : (name : List ℕ) (size : ℕ) (s : g.State) → IsGiven (g.make_ring name size s).0)
    (pools : (name : List ℕ) (n : ℕ) (s : g.State) → IsGiven (g.make_pool name n s).0) where
  make_links-IsGiven : (i : ℕ) (s : g.State) → IsGiven (make_links d g i s).0
  unfolding make_links
  make_links-IsGiven i s = IsGiven-and_then _ _ (rings (ring_name first i) ring_size s) λ r1 s1.
      IsGiven-and_then _ _ (rings (ring_name second i) ring_size s1) λ r2 s2.
        IsGiven-and_then _ _ (rings (ring_name third i) ring_size s2)
          λ r3 s3. IsGiven-and_then _ _ (pools (msg_pool_name i) pool_size s3) λ m s4. tt

  make_all_links-IsGiven : (n i : ℕ) (s : g.State) → IsGiven (make_all_links d g n i s).0
  unfolding make_all_links
  make_all_links-IsGiven zero i s = tt
  make_all_links-IsGiven (suc n) i s =
      IsGiven-and_then _ _ (make_links-IsGiven i s)
        λ l s1. IsGiven-and_then _ _ (make_all_links-IsGiven n (i + 1) s1) λ ls s2. tt

  make_frame_pools-IsGiven : (n i : ℕ) (s : g.State) → IsGiven (make_frame_pools d g n i s).0
  unfolding make_frame_pools
  make_frame_pools-IsGiven zero i s = tt
  make_frame_pools-IsGiven (suc n) i s =
      IsGiven-and_then _ _ (pools (frame_pool_name i) frame_pool_size s)
        λ m s1. IsGiven-and_then _ _ (make_frame_pools-IsGiven n (i + 1) s1) λ ms s2. tt

  -- When no call that makes a ring or a pool gives a null pointer, `main` gets as far as to start
  -- the threads of its channels.
  pub set_up-eq-runs :
      (workers : ℕ) (messages : ℕ → Bytes) (frames : ℕ → Frame) (s : g.State)
      → (cs : List (Channel d)) × (set_up d g workers messages frames s ≡ runs cs)
  unfolding set_up
  set_up-eq-runs workers messages frames s =
      ending (make_all_links d g (workers * 3) 0 s).0
        (make_frame_pools d g (workers * 3) 0 (make_all_links d g (workers * 3) 0 s).1).0
        (make_all_links-IsGiven (workers * 3) 0 s)
        (make_frame_pools-IsGiven (workers * 3) 0 (make_all_links d g (workers * 3) 0 s).1)
    where
      ending :
          (links : Option (List (Links d))) (frame_pools : Option (List d.Pool))
          → IsGiven links
          → IsGiven frame_pools
          → (cs : List (Channel d)) × ◌≡◌ {A = Outcome d}
              (elim links [
                | none ↦ exits
                | some ls ↦ elim frame_pools [
                  | none ↦ panics
                  | some ms ↦ runs (channels d g messages frames 0 ls ms)
                ]
              ])
              (runs cs)
      ending none ms h k = absurd h
      ending (some ls) none h k = absurd k
      ending (some ls) (some ms) h k = (channels d g messages frames 0 ls ms, refl)
