-- ===== src/Boot.antt =====
-- `main` of basicfwd.cpp as a whole: the environment, the channels, the threads on their CPUs, the
-- pool of packet buffers, the ports and the receive threads. The end of `main` waits for the
-- receive threads, which do not end.
pub mod Numbers
pub mod Orderly
pub mod Channels
pub mod Delivers
pub mod Devices
pub mod Starts
use dpdk_udp_receiver.Common.{
  ℕ, zero, suc, ◌+◌, not, ◌&&◌, ◌||◌, ◌*◌, ◌%◌, ◌^◌, Bool, true, false, Option, none, some, List,
  [], ◌∷◌, map, length, ◌==◌, ℤ, is_zero, is_negative, Bytes,
}
use dpdk_udp_receiver.Dpdk.{Dpdk}
use dpdk_udp_receiver.Channel.{Config, Frame, Channel}
use dpdk_udp_receiver.Setup.{let_start, Makers, exits, panics, runs, set_up}
use dpdk_udp_receiver.Ports.{Ethdev, port_init}
use dpdk_udp_receiver.Cpus.{CpuSets, Pin, start_threads}

-- NUM_MBUFS.
abbrev pub num_mbufs : ℕ
num_mbufs = 20480

-- More calls, parameters of the model: rte_eth_dev_count_avail, the ports of RTE_ETH_FOREACH_DEV,
-- and rte_pktmbuf_pool_create with its number of buffers, false for the null pointer; and, false
-- for the null pointer too, rte_zmalloc for the index of a channel and rte_malloc for the message
-- of its send thread.
pub record Machine (e : Ethdev) : Type 0 where
  pub count_avail : e.State → ℕ
  pub each_dev : e.State → List ℕ
  pub pktmbuf_pool_create : ℕ → e.State → Bool × e.State
  pub zmalloc_index : ℕ → Bool
  pub malloc_tmp : ℕ → Bool

-- What runs when `main` waits: the channels, where their threads are placed, the worker lcores
-- that run `lcore_main`, and the ports.
pub record Running (d : Dpdk) (e : Ethdev) (sets : CpuSets) : Type 0 where
  pub channels : List (Channel d)
  pub pins : List (Pin sets)
  pub lcores : List ℕ
  pub devices : e.State

-- How `main` ends, by `return -1` or rte_exit or by rte_panic, or what it waits for. Where it
-- `lacks`, its threads run with a null pointer for an index or a message, which nothing checks, or
-- the timer thread reads the first of no channels: what follows is undefined.
pub data Start (d : Dpdk) (e : Ethdev) (sets : CpuSets) : Type 0 where
  stops breaks lacks : Start d e sets
  waits : Running d e sets → Start d e sets

-- The loop over the ports, none for rte_exit.
unfoldable pub open_ports : (e : Ethdev) → List ℕ → e.State → Option e.State
open_ports e [] s = some s
open_ports e (portid ∷ rest) s =
    let (r, s1) = port_init e portid s in
    elim (is_zero r) [ true ↦ open_ports e rest s1 | false ↦ none ]

module _ (e : Ethdev) (m : Machine e) where
  -- The ports, none for each rte_exit. The number of buffers is an unsigned int.
  unfoldable pub start_devices : e.State → Option e.State
  start_devices s = elim (m.count_avail s == 0) [
    | true ↦ none
    | false ↦
        let (made, s1) = m.pktmbuf_pool_create (num_mbufs * m.count_avail s % 2 ^ 32) s in
        elim made [ true ↦ open_ports e (m.each_dev s1) s1 | false ↦ none ]
  ]

-- The memory that is asked for in the constructor of the index and in `send_to_pulsar`, which runs
-- with KAZE, is there for `n` channels from `i` on.
unfoldable pub is_given : {e : Ethdev} → Machine e → Bool → ℕ → ℕ → Bool
is_given m kaze zero i = true
is_given m kaze (suc n) i =
    m.zmalloc_index i && ((not kaze || m.malloc_tmp i) && is_given m kaze n (i + 1))

module _ (cfg : Config) (d : Dpdk) (g : Makers d) (e : Ethdev) (m : Machine e)
    (sets : CpuSets) where
  -- `eal` is what rte_eal_init returns, `lcores` are the lcores of RTE_LCORE_FOREACH_WORKER,
  -- `mask` is the uninitialised variable.
  unfoldable pub boot :
      ℤ → List ℕ → (ℕ → Bytes) → (ℕ → Frame) → sets.Mask → g.State → e.State → Start d e sets
  boot eal lcores messages frames mask s devices = elim (is_negative eal) [
    | true ↦ stops
    | false ↦ elim (set_up d g (length lcores) messages frames s) [
      | exits ↦ stops
      | panics ↦ breaks
      | runs cs ↦ elim (start_devices e m devices) [
        | none ↦ stops
        | some ready ↦
            elim (not (length lcores == 0) && is_given m cfg.kaze (length lcores * 3) 0) [
              | true ↦ waits (record {
                channels = map (let_start d) cs;
                pins = start_threads sets d cfg cs mask;
                lcores = lcores;
                devices = ready;
              })
              | false ↦ lacks
            ]
      ]
    ]
  ]
