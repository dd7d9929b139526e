-- ===== src/Setup/Fresh.antt =====
-- The channels that `main` makes are those that the invariant of the threads begins with.
use dpdk_udp_receiver.Common.{
  Bool, ℕ, zero, suc, ◌+◌, ◌-◌, ◌*◌, ◌≤◌, ◌≡◌, refl, ap, arith, Option, none, some, List, [], ◌∷◌,
  Bytes, times, length, All,
}
use dpdk_udp_receiver.Dpdk.{Dpdk, Lawful}
use dpdk_udp_receiver.Channel.{Config, Frame, Channel, new_channel}
use dpdk_udp_receiver.Assemble.{new_consumer}
use dpdk_udp_receiver.Send.{Sender}
use dpdk_udp_receiver.Pipeline.{System}
use dpdk_udp_receiver.Pipeline.Life.{IsEmpty}
use dpdk_udp_receiver.Pipeline.View.{AreBytes}
use dpdk_udp_receiver.Pipeline.Safety.{IsSafe}
use dpdk_udp_receiver.Pipeline.Promises.{fresh-IsSafe}
use dpdk_udp_receiver.Setup.{
  Makers, Links, Outcome, exits, panics, runs, ring_size, pool_size, frame_pool_size, and_then,
  make_links, make_all_links, make_frame_pools, channels, set_up,
}
use dpdk_udp_receiver.Setup.Names.{ring_name, first, second, third, msg_pool_name, frame_pool_name}

-- What is given, if anything is, has the property.
abbrev pub Gives : {A : Type 0} → (A → Type 0) → Option A → Type 0
Gives P none = Unit
Gives P (some a) = P a

pub Gives-and_then :
    {A B S : Type 0} (P : A → Type 0) (Q : B → Type 0) (r : Option A × S) (f : A → S → Option B × S)
    → Gives P r.0
    → ((a : A) (s : S) → P a → Gives Q (f a s).0)
    → Gives Q (and_then r f).0
unfolding and_then
Gives-and_then P Q (none, s) f h k = tt
Gives-and_then P Q (some a, s) f h k = k a s h

module _ (d : Dpdk) where
  -- An empty ring with room for all the frames of a pool.
  pub record IsOpen (r : d.Ring) : Type 0 where
    pub nothing : d.objects r ≡ []
    pub room : ring_size - 1 ≤ d.capacity r

  -- A pool of `n` different objects, all of them free.
  pub record IsFull (n : ℕ) (m : d.Pool) : Type 0 where
    pub many : length (d.free m) ≡ n
    pub distinct : (o : ℕ) → times o (d.free m) ≤ 1

  -- What rte_ring_create and rte_mempool_create promise where they give no null pointer: a ring
  -- made with the size `ring_size`, a power of two, is empty and can hold one object less than
  -- that; a pool has as many objects as were asked for.
  pub record IsMaker (g : Makers d) : Type 0 where
    pub ring_made : (name : List ℕ) (s : g.State) → Gives IsOpen (g.make_ring name ring_size s).0
    pub pool_made :
        (name : List ℕ) (n : ℕ) (s : g.State) → Gives (IsFull n) (g.make_pool name n s).0

  -- A channel that nothing has happened to: all slots of the index are free, all frames empty and
  -- in the pool, and the rings that frames go through empty and with room.
  pub record IsNew (c : Channel d) : Type 0 where
    pub unindexed : (s : ℕ) → c.index s ≡ none
    pub zeroed : (f : ℕ) → IsEmpty (c.frames f)
    pub distinct : (o : ℕ) → times o (d.free c.frame_pool) ≤ 1
    pub many : length (d.free c.frame_pool) ≡ frame_pool_size
    pub announced : d.objects c.ring2_3 ≡ []
    pub room : frame_pool_size ≤ d.capacity c.ring2_3
    pub passed : d.objects c.ring3_4 ≡ []
    pub room_passed : frame_pool_size ≤ d.capacity c.ring3_4
    pub bytes : AreBytes c.messages

  -- `timer_init` makes no difference to it.
  pub timer_init-IsNew : (b : Bool) (c : Channel d) → IsNew c → IsNew (record c { timer_init = b })
  timer_init-IsNew b c new = record {
    unindexed = new.unindexed;
    zeroed = new.zeroed;
    distinct = new.distinct;
    many = new.many;
    announced = new.announced;
    room = new.room;
    passed = new.passed;
    room_passed = new.room_passed;
    bytes = new.bytes;
  }

module _ (cfg : Config) (d : Dpdk) (laws : Lawful d) (g : Makers d) (made : IsMaker d g) where
  -- The rings that frames go through.
  abbrev IsRoomy : Links d → Type 0
  IsRoomy l = IsOpen d l.ring2_3 × IsOpen d l.ring3_4

  make_links-IsRoomy : (i : ℕ) (s : g.State) → Gives IsRoomy (make_links d g i s).0
  unfolding make_links
  make_links-IsRoomy i s =
      Gives-and_then (IsOpen d) IsRoomy _ _ (made.ring_made (ring_name first i) s) λ r1 s1 _.
        Gives-and_then (IsOpen d) IsRoomy _ _ (made.ring_made (ring_name second i) s1) λ r2 s2 two.
          Gives-and_then (IsOpen d) IsRoomy _ _ (made.ring_made (ring_name third i) s2)
            λ r3 s3 three.
              Gives-and_then (IsFull d pool_size) IsRoomy _ _
                (made.pool_made (msg_pool_name i) pool_size s3) λ m s4 _. (two, three)

  abbrev Many : {A : Type 0} → (A → Type 0) → ℕ → List A → Type 0
  Many P n xs = (length xs ≡ n) × All P xs

  make_all_links-IsRoomy :
      (n i : ℕ) (s : g.State) → Gives (Many IsRoomy n) (make_all_links d g n i s).0
  unfolding make_all_links
  make_all_links-IsRoomy zero i s = (refl, tt)
  make_all_links-IsRoomy (suc n) i s =
      Gives-and_then IsRoomy (Many IsRoomy (suc n)) _ _ (make_links-IsRoomy i s) λ l s1 h.
        Gives-and_then (Many IsRoomy n) (Many IsRoomy (suc n)) _ _
          (make_all_links-IsRoomy n (i + 1) s1) λ ls s2 k. (ap suc k.0, (h, k.1))

  make_frame_pools-IsFull :
      (n i : ℕ) (s : g.State)
      → Gives (Many (IsFull d frame_pool_size) n) (make_frame_pools d g n i s).0
  unfolding make_frame_pools
  make_frame_pools-IsFull zero i s = (refl, tt)
  make_frame_pools-IsFull (suc n) i s =
      Gives-and_then (IsFull d frame_pool_size) (Many (IsFull d frame_pool_size) (suc n)) _ _
        (made.pool_made (frame_pool_name i) frame_pool_size s)
        λ m s1 h.
          Gives-and_then (Many (IsFull d frame_pool_size) n)
            (Many (IsFull d frame_pool_size) (suc n)) _ _ (make_frame_pools-IsFull n (i + 1) s1)
            λ ms s2 k. (ap suc k.0, (h, k.1))

  -- A channel with threads that have not run.
  abbrev pub at_rest : Sender → Channel d → System d
  at_rest sender c = record { chan = c; consumer = new_consumer; wait = none; sender = sender }

  -- What `set_up` may end in: nothing that runs, or `n` channels that are all safe.
  abbrev pub IsGood : ℕ → Sender → Outcome d → Type 0
  IsGood n sender exits = Unit
  IsGood n sender panics = Unit
  IsGood n sender (runs cs) =
      (length cs ≡ n)
      × All (λ c. IsSafe cfg d laws frame_pool_size (at_rest sender c) × IsNew d c) cs

  channels-IsSafe :
      (messages : ℕ → Bytes) (frames : ℕ → Frame) (sender : Sender)
      → AreBytes messages
      → ((f : ℕ) → IsEmpty (frames f))
      → (n i : ℕ) (ls : List (Links d)) (ms : List d.Pool) → Many IsRoomy n ls
      → Many (IsFull d frame_pool_size) n ms
      → IsGood n sender (runs (channels d g messages frames i ls ms))
  unfolding channels new_channel
  channels-IsSafe messages frames sender bytes zeroed zero i [] ms h k = (refl, tt)
  channels-IsSafe messages frames sender bytes zeroed zero i (l ∷ ls) ms h k =
      absurd (omega (arith, h.0))
  channels-IsSafe messages frames sender bytes zeroed (suc n) i [] ms h k =
      absurd (omega (arith, h.0))
  channels-IsSafe messages frames sender bytes zeroed (suc n) i (l ∷ ls) [] h k =
      absurd (omega (arith, k.0))
  channels-IsSafe messages frames sender bytes zeroed (suc n) i (l ∷ ls) (m ∷ ms) h k =
      let safe =
        fresh-IsSafe cfg d laws frame_pool_size i m l.send_pool l.ring1_2 l.ring2_3 l.ring3_4
          messages frames sender
          (record {
            distinct = k.1.0.distinct;
            many = k.1.0.many;
            nothing_announced = h.1.0.0.nothing;
            nothing_passed = h.1.0.1.nothing;
            room_announced = omega (arith, h.1.0.0.room);
            room_passed = omega (arith, h.1.0.1.room);
            bytes = bytes;
            zeroed = λ f _. zeroed f;
          }) in
      let new : IsNew d
          (new_channel d i m l.send_pool l.ring1_2 l.ring2_3 l.ring3_4 messages frames) =
        record {
          unindexed = λ q. refl;
          zeroed = zeroed;
          distinct = k.1.0.distinct;
          many = k.1.0.many;
          announced = h.1.0.0.nothing;
          room = omega (arith, h.1.0.0.room);
          passed = h.1.0.1.nothing;
          room_passed = omega (arith, h.1.0.1.room);
          bytes = bytes;
        } in
      let rest =
        channels-IsSafe messages frames sender bytes zeroed n (i + 1) ls ms
          (omega (arith, h.0), h.1.1) (omega (arith, k.0), k.1.1) in
      (ap suc rest.0, ((safe, new), rest.1))

  -- On memory of bytes in which every frame is empty, `main` either stops, or starts three channels
  -- for each worker, all of them new, and safe with the 16384 frames of their pool.
  pub set_up-IsSafe :
      (workers : ℕ) (messages : ℕ → Bytes) (frames : ℕ → Frame) (sender : Sender) (s : g.State)
      → AreBytes messages
      → ((f : ℕ) → IsEmpty (frames f))
      → IsGood (workers * 3) sender (set_up d g workers messages frames s)
  unfolding set_up
  set_up-IsSafe workers messages frames sender s bytes zeroed =
      ending (make_all_links d g (workers * 3) 0 s).0
        (make_frame_pools d g (workers * 3) 0 (make_all_links d g (workers * 3) 0 s).1).0
        (make_all_links-IsRoomy (workers * 3) 0 s)
        (make_frame_pools-IsFull (workers * 3) 0 (make_all_links d g (workers * 3) 0 s).1)
    where
      ending :
          (links : Option (List (Links d))) (pools : Option (List d.Pool))
          → Gives (Many IsRoomy (workers * 3)) links
          → Gives (Many (IsFull d frame_pool_size) (workers * 3)) pools
          → IsGood (workers * 3) sender (elim links [
            | none ↦ exits
            | some ls ↦ elim pools [
              | none ↦ panics
              | some ms ↦ runs (channels d g messages frames 0 ls ms)
            ]
          ])
      ending none pools h k = tt
      ending (some ls) none h k = tt
      ending (some ls) (some ms) h k =
          channels-IsSafe messages frames sender bytes zeroed (workers * 3) 0 ls ms h k
