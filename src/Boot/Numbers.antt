-- ===== src/Boot/Numbers.antt =====
-- The numbers of the channels that `main` makes.
use dpdk_udp_receiver.Common.{
  ℕ, zero, suc, ◌+◌, ◌*◌, ◌≤◌, ◌<◌, ◌≡◌, refl, ap, arith, Option, none, some, List, [], ◌∷◌, length,
  All, Bytes,
}
use dpdk_udp_receiver.Dpdk.{Dpdk}
use dpdk_udp_receiver.Channel.{Frame, new_channel}
use dpdk_udp_receiver.Setup.{
  Makers, Links, Outcome, exits, panics, runs, make_all_links, make_frame_pools, channels, set_up,
}
use dpdk_udp_receiver.Setup.Fresh.{Gives, Gives-and_then}

module _ (d : Dpdk) (g : Makers d) where
  channels-AreFew :
      (messages : ℕ → Bytes) (frames : ℕ → Frame) (n i : ℕ) (ls : List (Links d)) (ms : List d.Pool)
      → i + length ls ≤ n
      → All (λ c. c.channel_id < n) (channels d g messages frames i ls ms)
  unfolding channels new_channel
  channels-AreFew messages frames n i [] ms h = tt
  channels-AreFew messages frames n i (l ∷ ls) [] h = tt
  channels-AreFew messages frames n i (l ∷ ls) (m ∷ ms) h =
      (omega arith, channels-AreFew messages frames n (i + 1) ls ms (omega arith))

  Gives-any : {A : Type 0} (o : Option A) → Gives (λ a. Unit {0}) o
  Gives-any none = tt
  Gives-any (some a) = tt

  length-make_all_links :
      (n i : ℕ) (s : g.State) → Gives (λ ls. length ls ≡ n) (make_all_links d g n i s).0
  unfolding make_all_links
  length-make_all_links zero i s = refl
  length-make_all_links (suc n) i s =
      Gives-and_then (λ l. Unit {0}) (λ ls. length ls ≡ suc n) _ _ (Gives-any _)
        λ l s1 _.
          Gives-and_then (λ ls. length ls ≡ n) (λ ls. length ls ≡ suc n) _ _
            (length-make_all_links n (i + 1) s1) λ ls s2 k. ap suc k

  abbrev pub AreBelow : ℕ → Outcome d → Type 0
  AreBelow n exits = Unit
  AreBelow n panics = Unit
  AreBelow n (runs cs) = All (λ c. c.channel_id < n) cs

  pub set_up-AreBelow :
      (workers : ℕ) (messages : ℕ → Bytes) (frames : ℕ → Frame) (s : g.State)
      → AreBelow (workers * 3) (set_up d g workers messages frames s)
  unfolding set_up
  set_up-AreBelow workers messages frames s =
      ending (make_all_links d g (workers * 3) 0 s).0
        (make_frame_pools d g (workers * 3) 0 (make_all_links d g (workers * 3) 0 s).1).0
        (length-make_all_links (workers * 3) 0 s)
    where
      ending :
          (links : Option (List (Links d))) (pools : Option (List d.Pool))
          → Gives (λ ls. length ls ≡ workers * 3) links
          → AreBelow (workers * 3) (elim links [
            | none ↦ exits
            | some ls ↦ elim pools [
              | none ↦ panics
              | some ms ↦ runs (channels d g messages frames 0 ls ms)
            ]
          ])
      ending none pools h = tt
      ending (some ls) none h = tt
      ending (some ls) (some ms) h =
          channels-AreFew messages frames (workers * 3) 0 ls ms (omega (arith, h))
