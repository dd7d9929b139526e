-- ===== src/Boot/Channels.antt =====
-- What `main` waits for: its channels, threads, CPUs and ports.
use dpdk_udp_receiver.Common.{
  not, ◌&&◌, ◌==◌, length-map, All-over, get_elem?, All-get_elem?, ◌%◌, ◌^◌, ℕ, ◌*◌, ◌≤◌, ◌≡◌, ◌≢◌,
  refl, subst, ◌∙◌, arith, Bool, true, false, Option, none, some, List, map, length, All, All-map,
  ℤ, is_negative, Bytes,
}
use dpdk_udp_receiver.Dpdk.{Dpdk, Lawful}
use dpdk_udp_receiver.Channel.{Config, Frame, Channel}
use dpdk_udp_receiver.Assemble.{new_consumer}
use dpdk_udp_receiver.Send.{Sender}
use dpdk_udp_receiver.Pipeline.{System, Reach}
use dpdk_udp_receiver.Pipeline.Life.{IsEmpty}
use dpdk_udp_receiver.Pipeline.View.{AreBytes}
use dpdk_udp_receiver.Pipeline.Safety.{IsSafe, Reach-IsSafe}
use dpdk_udp_receiver.Setup.{
  let_start, Makers, Outcome, exits, panics, runs, frame_pool_size, set_up,
}
use dpdk_udp_receiver.Setup.Fresh.{IsMaker, IsGood, IsNew, set_up-IsSafe}
use dpdk_udp_receiver.Ports.{Ethdev}
use dpdk_udp_receiver.Ports.Started.{IsEthdev}
use dpdk_udp_receiver.Cpus.{CpuSets, start_threads}
use dpdk_udp_receiver.Cpus.Apart.{IsCpuSets, Apart, ArePlaced-Apart, start_threads-ArePlaced}
use dpdk_udp_receiver.Boot.{
  num_mbufs, Machine, is_given, Running, Start, stops, breaks, lacks, waits, start_devices, boot,
}
use dpdk_udp_receiver.Boot.Devices.{IsApart, start_devices-AreStarted}
use dpdk_udp_receiver.Boot.Numbers.{AreBelow, set_up-AreBelow}

-- The channel as its threads are started, before `main` has set `timer_init`.
abbrev pub as_started : {d : Dpdk} → Channel d → Channel d
as_started c = record c { timer_init = false }

module _ (cfg : Config) (d : Dpdk) (g : Makers d) (e : Ethdev) (m : Machine e) (sets : CpuSets)
    (eal : ℤ) (lcores : List ℕ) (messages : ℕ → Bytes) (frames : ℕ → Frame) (mask : sets.Mask)
    (s : g.State) (devices : e.State) where
  abbrev pub booted : Start d e sets
  booted = boot cfg d g e m sets eal lcores messages frames mask s devices

  -- There is a worker lcore, and the memory for all channels.
  abbrev pub has_all : Bool
  has_all = not (length lcores == 0) && is_given m cfg.kaze (length lcores * 3) 0

  -- What was done when `main` waits.
  abbrev pub Done : Running d e sets → Type 0
  Done r =
      (cs : List (Channel d)) × (ready : e.State) × (set_up d g (length lcores) messages frames s
        ≡ runs cs)
      × (start_devices e m devices ≡ some ready)
      × (has_all ≡ true)
      × (r ≡ record {
        channels = map (let_start d) cs;
        pins = start_threads sets d cfg cs mask;
        lcores = lcores;
        devices = ready;
      })

  pub boot-Done : (r : Running d e sets) → booted ≡ waits r → Done r
  unfolding boot
  boot-Done r =
      split (is_negative eal) (set_up d g (length lcores) messages frames s)
        (start_devices e m devices) has_all refl refl refl
    where
      split :
          (failed : Bool) (made : Outcome d) (ready : Option e.State) (there : Bool)
          → set_up d g (length lcores) messages frames s ≡ made
          → start_devices e m devices ≡ ready
          → has_all ≡ there
          → ◌≡◌ {A = Start d e sets}
              (elim failed [
                | true ↦ stops
                | false ↦ elim made [
                  | exits ↦ stops
                  | panics ↦ breaks
                  | runs cs ↦ elim ready [
                    | none ↦ stops
                    | some t ↦ elim there [
                      | true ↦ waits (record {
                        channels = map (let_start d) cs;
                        pins = start_threads sets d cfg cs mask;
                        lcores = lcores;
                        devices = t;
                      })
                      | false ↦ lacks
                    ]
                  ]
                ]
              ])
              (waits r)
          → Done r
      split true made ready there h k l eq = cc
      split false exits ready there h k l eq = cc
      split false panics ready there h k l eq = cc
      split false (runs cs) none there h k l eq = cc
      split false (runs cs) (some t) false h k l eq = cc
      split false (runs cs) (some t) true h k l eq = (cs, t, h, k, l, cc)

  -- A channel with threads that have not run.
  abbrev pub begun : Sender → Channel d → System d
  begun sender c = record { chan = c; consumer = new_consumer; wait = none; sender = sender }

  module _ (laws : Lawful d) (made : IsMaker d g) (started : ℕ → e.State → Bool)
      (ethdev : IsEthdev e started)
      (apart : (port other : ℕ) → port ≢ other → IsApart e started port other) where
    -- The channel may start, and is safe.
    abbrev pub IsReady : Sender → Channel d → Type 0
    IsReady sender c =
        (c.timer_init ≡ true) × IsSafe cfg d laws frame_pool_size (begun sender (as_started c))

    let_start-IsReady :
        (sender : Sender) (c : Channel d)
        → IsSafe cfg d laws frame_pool_size (begun sender c) × IsNew d c
        → IsReady sender (let_start d c)
    unfolding let_start
    let_start-IsReady sender c (h, _) = (refl, record { sound = h.sound; bytes = h.bytes })

    -- The channels of a start that comes to its end.
    pub boot-AreReady :
        (sender : Sender) (r : Running d e sets)
        → AreBytes messages
        → ((f : ℕ) → IsEmpty (frames f))
        → booted ≡ waits r
        → (length r.channels ≡ length lcores * 3) × All (IsReady sender) r.channels
    boot-AreReady sender r bytes zeroed eq =
        let (cs, ready, made_them, opened, has, done) = boot-Done r eq in
        let good =
          subst (IsGood cfg d laws g made (length lcores * 3) sender) made_them (
            set_up-IsSafe cfg d laws g made (length lcores) messages frames sender s bytes
              zeroed) in
        rw done (
          length-map (let_start d) cs ∙ good.0,
          All-over (IsReady sender) (let_start d) cs
              (All-map _ _ (let_start-IsReady sender) cs good.1),
        )

    -- On memory of bytes in which every frame is empty, and with calls that do what they promise:
    -- when `main` gets as far as to wait for its receive threads, and no index of a channel and no
    -- message of a send thread is a null pointer, it has made three channels for
    -- each worker lcore; each of them has its `timer_init` set, and is safe after any sequence of
    -- the steps that `Step` has from the start of its threads on; and every port that the loop over
    -- the ports goes through is started.
    pub boot-IsSafe :
        (sender : Sender) (r : Running d e sets) (i : ℕ) (c : Channel d) (y : System d)
        → AreBytes messages
        → ((f : ℕ) → IsEmpty (frames f))
        → booted ≡ waits r
        → get_elem? r.channels i ≡ some c
        → Reach cfg d (begun sender (as_started c)) y
        → (length r.channels ≡ length lcores * 3)
          × (c.timer_init ≡ true)
          × IsSafe cfg d laws frame_pool_size y
          × All
              (λ port. started port r.devices ≡ true)
              (m.each_dev
                (m.pktmbuf_pool_create (num_mbufs * m.count_avail devices % 2 ^ 32) devices).1)
    boot-IsSafe sender r i c y bytes zeroed eq at reached =
        let (cs, ready, made_them, opened, has, done) = boot-Done r eq in
        let all = boot-AreReady sender r bytes zeroed eq in
        let ready_now = All-get_elem? (IsReady sender) r.channels i c all.1 at in
        (
          all.0,
          ready_now.0,
          Reach-IsSafe cfg d laws frame_pool_size ready_now.1 reached,
          rw done (start_devices-AreStarted e started ethdev apart m devices ready opened),
        )

  -- With calls of sched.h that do what they promise and six worker lcores at most: when `main`
  -- waits, the masks that it has asked pthread_setaffinity_np to set for two of the consumer, align,
  -- send and timer threads have a CPU in common only if these are the same thread, or the timer
  -- thread and the align thread of channel 3. Nothing is said of the receive threads.
  pub boot-Apart :
      (cpus : IsCpuSets sets) (r : Running d e sets)
      → length lcores ≤ 6
      → booted ≡ waits r
      → All (λ p. All (Apart sets cpus p) r.pins) r.pins
  boot-Apart cpus r few eq =
      let (cs, ready, made_them, opened, has, done) = boot-Done r eq in
      let below =
        subst (AreBelow d g (length lcores * 3)) made_them
          (set_up-AreBelow d g (length lcores) messages frames s) in
      rw done (
        ArePlaced-Apart sets cpus _ (
          start_threads-ArePlaced sets cpus d cfg cs mask
            (All-map _ _ (λ c h. omega (arith, h)) cs below)))
