-- ===== src/Boot/Starts.antt =====
-- `main` gets to its end: with calls that do not fail, it waits for the receive threads.
use dpdk_udp_receiver.Common.{
  IsGiven, ◌<◌, not, ◌&&◌, ℕ, zero, suc, ◌+◌, ◌*◌, ◌%◌, ◌^◌, ◌≡◌, refl, sym, subst, arith, Bool,
  true, false, Option, none, some, List, [], ◌∷◌, length, map, ◌==◌, All, ℤ, pos, is_zero, Bytes,
}
use dpdk_udp_receiver.Dpdk.{Dpdk}
use dpdk_udp_receiver.Channel.{Config, Frame, Channel}
use dpdk_udp_receiver.Setup.{let_start, Outcome, exits, panics, Makers, runs, set_up}
use dpdk_udp_receiver.Setup.Starts.{set_up-eq-runs}
use dpdk_udp_receiver.Ports.{
  Ethdev, unless_zero, unless_negative, rings, set_up_rx, set_up_tx, start_port, configure_port,
  port_init,
}
use dpdk_udp_receiver.Cpus.{CpuSets, start_threads}
use dpdk_udp_receiver.Boot.{
  Machine, is_given, Running, Start, stops, breaks, lacks, waits, num_mbufs, open_ports,
  start_devices, boot,
}

-- A call on a port that does not fail: it returns 0.
abbrev pub Succeeds {ℓ} : {S : Type ℓ} → ℤ × S → Type 0
Succeeds c = c.0 ≡ pos 0

unless_zero-Succeeds {ℓ} :
    {S : Type ℓ} (c : ℤ × S) (next : S → ℤ × S)
    → Succeeds c
    → ((s : S) → Succeeds (next s))
    → Succeeds (unless_zero c next)
unfolding unless_zero
unless_zero-Succeeds (r, s) next h k = rw h (k s)

unless_negative-Succeeds {ℓ} :
    {S : Type ℓ} (c : ℤ × S) (next : S → ℤ × S)
    → Succeeds c
    → ((s : S) → Succeeds (next s))
    → Succeeds (unless_negative c next)
unfolding unless_negative
unless_negative-Succeeds (r, s) next h k = rw h (k s)

-- A port that is there, and no call on it fails.
pub record IsUsable (e : Ethdev) (port : ℕ) : Type 0 where
  pub valid : (s : e.State) → e.is_valid_port port s ≡ true
  pub info_get : (s : e.State) → (e.info_get port s).0.0 ≡ pos 0
  pub configure :
      (rx tx : ℕ) (offloads : Bool) (s : e.State) → Succeeds (e.configure port rx tx offloads s)
  pub adjust : (s : e.State) → Succeeds (e.adjust_nb_rx_tx_desc port s)
  pub rx_queue_setup : (q nb_rxd : ℕ) (s : e.State) → Succeeds (e.rx_queue_setup port q nb_rxd s)
  pub tx_queue_setup :
      (q nb_txd : ℕ) (offloads : Bool) (s : e.State)
      → Succeeds (e.tx_queue_setup port q nb_txd offloads s)
  pub start : (s : e.State) → Succeeds (e.start port s)
  pub macaddr_get : (s : e.State) → Succeeds (e.macaddr_get port s)

module _ (e : Ethdev) (port : ℕ) (h : IsUsable e port) where
  start_port-Succeeds : (s : e.State) → Succeeds (start_port e port s)
  unfolding start_port
  start_port-Succeeds s =
      unless_negative-Succeeds _ _ (h.start s)
        λ s1. unless_zero-Succeeds _ _ (h.macaddr_get s1) λ s2. refl

  set_up_tx-Succeeds :
      (offloads : Bool) (n q : ℕ) (s : e.State)
      → Succeeds (set_up_tx e port offloads n q (start_port e port) s)
  unfolding set_up_tx
  set_up_tx-Succeeds offloads zero q s = start_port-Succeeds s
  set_up_tx-Succeeds offloads (suc n) q s =
      unless_negative-Succeeds _ _ (h.tx_queue_setup q (e.nb_txd s) offloads s)
        (set_up_tx-Succeeds offloads n (q + 1))

  set_up_rx-Succeeds :
      (offloads : Bool) (n q : ℕ) (s : e.State)
      → Succeeds (set_up_rx e port n q (set_up_tx e port offloads rings 0 (start_port e port)) s)
  unfolding set_up_rx
  set_up_rx-Succeeds offloads zero q s = set_up_tx-Succeeds offloads rings 0 s
  set_up_rx-Succeeds offloads (suc n) q s =
      unless_negative-Succeeds _ _ (h.rx_queue_setup q (e.nb_rxd s) s)
        (set_up_rx-Succeeds offloads n (q + 1))

  configure_port-Succeeds : (fast : Bool) (s : e.State) → Succeeds (configure_port e port fast s)
  unfolding configure_port
  configure_port-Succeeds fast s =
      unless_zero-Succeeds _ _ (h.configure rings rings fast s)
        λ s1. unless_zero-Succeeds _ _ (h.adjust s1) (set_up_rx-Succeeds fast rings 0)

  port_init-Succeeds : (s : e.State) → Succeeds (port_init e port s)
  unfolding port_init
  port_init-Succeeds s =
      rw (h.valid s) (unless_zero-Succeeds _ _ (h.info_get s) (configure_port-Succeeds _))

open_ports-IsGiven :
    (e : Ethdev) (ports : List ℕ) (s : e.State)
    → All (IsUsable e) ports
    → IsGiven (open_ports e ports s)
unfolding open_ports
open_ports-IsGiven e [] s h = tt
open_ports-IsGiven e (port ∷ ports) s h =
    subst
      (λ (r : ℤ).
        IsGiven
          (elim (is_zero r) [ true ↦ open_ports e ports (port_init e port s).1 | false ↦ none ]))
      (sym (port_init-Succeeds e port h.0 s))
      (open_ports-IsGiven e ports (port_init e port s).1 h.1)

-- The calls that `main` makes for all ports: there is a port, the pool is made, and the loop goes
-- over ports that are usable.
pub record IsWorking (e : Ethdev) (m : Machine e) : Type 0 where
  pub some_port : (s : e.State) → (m.count_avail s == 0) ≡ false
  pub pool_made : (n : ℕ) (s : e.State) → (m.pktmbuf_pool_create n s).0 ≡ true
  pub usable : (s : e.State) → All (IsUsable e) (m.each_dev s)
  pub index_made : (i : ℕ) → m.zmalloc_index i ≡ true
  pub tmp_made : (i : ℕ) → m.malloc_tmp i ≡ true

is_given_lem :
    {e : Ethdev} (m : Machine e)
    → IsWorking e m
    → (kaze : Bool) (n i : ℕ) → is_given m kaze n i ≡ true
unfolding is_given
is_given_lem m h kaze zero i = refl
is_given_lem m h kaze (suc n) i =
    ground (arith, h.index_made i, h.tmp_made i, is_given_lem m h kaze n (i + 1))

start_devices-IsGiven :
    (e : Ethdev) (m : Machine e) (s : e.State) → IsWorking e m → IsGiven (start_devices e m s)
unfolding start_devices
start_devices-IsGiven e m s h =
    split (m.count_avail s == 0) (m.pktmbuf_pool_create (num_mbufs * m.count_avail s % 2 ^ 32) s).0
      (h.some_port s) (h.pool_made (num_mbufs * m.count_avail s % 2 ^ 32) s)
  where
    split :
        (none_there made : Bool)
        → none_there ≡ false
        → made ≡ true
        → IsGiven (elim none_there [
          | true ↦ none
          | false ↦ elim made [
            | true ↦
                open_ports e
                  (m.each_dev (m.pktmbuf_pool_create (num_mbufs * m.count_avail s % 2 ^ 32) s).1)
                  (m.pktmbuf_pool_create (num_mbufs * m.count_avail s % 2 ^ 32) s).1
            | false ↦ none
          ]
        ])
    split true made there ok = ground (arith, there)
    split false true there ok = open_ports-IsGiven e _ _ (h.usable _)
    split false false there ok = ground (arith, ok)

module _ (cfg : Config) (d : Dpdk) (g : Makers d) (e : Ethdev) (m : Machine e)
    (sets : CpuSets) where
  -- When no call of `main` fails, neither for the environment nor for a ring, a pool, a port or
  -- memory, and there is a worker lcore, then `main` waits for the receive threads.
  pub boot-eq-waits :
      (n : ℕ) (lcores : List ℕ) (messages : ℕ → Bytes) (frames : ℕ → Frame) (mask : sets.Mask)
      (s : g.State) (devices : e.State)
      → ((name : List ℕ) (size : ℕ) (t : g.State) → IsGiven (g.make_ring name size t).0)
      → ((name : List ℕ) (k : ℕ) (t : g.State) → IsGiven (g.make_pool name k t).0)
      → IsWorking e m
      → 0 < length lcores
      → (r : Running d e sets) × (boot cfg d g e m sets
            (pos n)
            lcores
            messages
            frames
            mask
            s
            devices
          ≡ waits r)
  unfolding boot
  boot-eq-waits n lcores messages frames mask s devices rings_made pools_made working some_lcore =
      let (cs, made_them) =
        set_up-eq-runs d g rings_made pools_made (length lcores) messages frames s in
      split (set_up d g (length lcores) messages frames s) cs (start_devices e m devices) made_them
        (start_devices-IsGiven e m devices working)
        (not (length lcores == 0) && is_given m cfg.kaze (length lcores * 3) 0)
        (ground (arith, is_given_lem m working cfg.kaze (length lcores * 3) 0, some_lcore))
    where
      split :
          (made : Outcome d) (cs : List (Channel d)) (ready : Option e.State)
          → made ≡ runs cs
          → IsGiven ready
          → (there : Bool) → there ≡ true
          → (r : Running d e sets) × ◌≡◌ {A = Start d e sets}
              (elim made [
                | exits ↦ stops
                | panics ↦ breaks
                | runs channels ↦ elim ready [
                  | none ↦ stops
                  | some t ↦ elim there [
                    | true ↦ waits (record {
                      channels = map (let_start d) channels;
                      pins = start_threads sets d cfg channels mask;
                      lcores = lcores;
                      devices = t;
                    })
                    | false ↦ lacks
                  ]
                ]
              ])
              (waits r)
      split exits cs ready eq h there ok = cc
      split panics cs ready eq h there ok = cc
      split (runs channels) cs none eq h there ok = absurd h
      split (runs channels) cs (some t) eq h true ok = (_, refl)
      split (runs channels) cs (some t) eq h false ok = cc
