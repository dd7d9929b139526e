-- ===== src/Ports.antt =====
-- `port_init` of basicfwd.cpp: the calls that configure and start an Ethernet port, in order, with
-- an early return at each that fails. Printing the MAC address is left out.
pub mod Started
use dpdk_udp_receiver.Common.{
  ℕ, zero, suc, ◌+◌, Bool, true, false, ◌||◌, ℤ, pos, negsuc, is_zero, is_negative, if◌then◌else◌,
}

-- The calls of rte_ethdev.h, a parameter of the model. Each has the port first and gives what it
-- returns. They act on a state that has the globals `nb_rxd` and `nb_txd` in it, to which
-- rte_eth_dev_adjust_nb_rx_tx_desc is given pointers. `offloads` is the flag DEV_TX_OFFLOAD_MBUF_FAST_FREE.
pub record Ethdev : Type 1 where
  pub State : Type 0
  pub nb_rxd : State → ℕ
  pub nb_txd : State → ℕ
  pub is_valid_port : ℕ → State → Bool
  -- rte_eth_dev_info_get, with whether the device offers that flag and the flag in its
  -- default_txconf.
  pub info_get : ℕ → State → (ℤ × (Bool × Bool)) × State
  pub configure : ℕ → (rx_rings tx_rings : ℕ) → (offloads : Bool) → State → ℤ × State
  pub adjust_nb_rx_tx_desc : ℕ → State → ℤ × State
  pub rx_queue_setup : ℕ → (queue nb_rxd : ℕ) → State → ℤ × State
  pub tx_queue_setup : ℕ → (queue nb_txd : ℕ) → (offloads : Bool) → State → ℤ × State
  pub start : ℕ → State → ℤ × State
  pub macaddr_get : ℕ → State → ℤ × State

-- `if (retval != 0) return retval;` and `if (retval < 0) return retval;`
unfoldable pub unless_zero {ℓ} : {S : Type ℓ} → ℤ × S → (S → ℤ × S) → ℤ × S
unless_zero (r, s) next = if is_zero r then next s else (r, s)

unfoldable pub unless_negative {ℓ} : {S : Type ℓ} → ℤ × S → (S → ℤ × S) → ℤ × S
unless_negative (r, s) next = if is_negative r then (r, s) else next s

-- `rx_rings` and `tx_rings`.
abbrev pub rings : ℕ
rings = 1

module _ (e : Ethdev) (port : ℕ) where
  -- `for (q = 0; q < rx_rings; q++)`, from `q` on with `n` rounds left, and then the rest.
  unfoldable pub set_up_rx : ℕ → ℕ → (e.State → ℤ × e.State) → e.State → ℤ × e.State
  set_up_rx zero q next s = next s
  set_up_rx (suc n) q next s =
      unless_negative (e.rx_queue_setup port q (e.nb_rxd s) s) (set_up_rx n (q + 1) next)

  unfoldable pub set_up_tx : Bool → ℕ → ℕ → (e.State → ℤ × e.State) → e.State → ℤ × e.State
  set_up_tx offloads zero q next s = next s
  set_up_tx offloads (suc n) q next s =
      unless_negative (e.tx_queue_setup port q (e.nb_txd s) offloads s)
        (set_up_tx offloads n (q + 1) next)

  -- From the start of the port on.
  unfoldable pub start_port : e.State → ℤ × e.State
  start_port s =
      unless_negative (e.start port s) λ s1. unless_zero (e.macaddr_get port s1) λ s2. (pos 0, s2)

  -- The configuration. Nothing sets the offloads of `port_conf_default`, so the flag is on where
  -- the device offers it.
  unfoldable pub configure_port : Bool → e.State → ℤ × e.State
  configure_port fast_free s = unless_zero (e.configure port rings rings fast_free s) λ s1.
      unless_zero (e.adjust_nb_rx_tx_desc port s1)
        λ s2. set_up_rx rings 0 (set_up_tx fast_free rings 0 start_port) s2

  unfoldable pub port_init : e.State → ℤ × e.State
  port_init s =
      if e.is_valid_port port s
      then (let ((r, (fast_free, default_flag)), s1) = e.info_get port s in
          unless_zero (r, s1) (configure_port fast_free))
      else (negsuc 0, s)
