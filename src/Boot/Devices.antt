-- ===== src/Boot/Devices.antt =====
-- The ports of the program: all of them are started when `main` waits.
use dpdk_udp_receiver.Common.{
  ◌*◌, ◌%◌, ◌^◌, ℕ, zero, suc, ◌+◌, ◌≡◌, ◌≢◌, refl, arith, ==_iff, Bool, true, false, Bool-cases,
  none, some, List, [], ◌∷◌, ◌==◌, All, ℤ, pos, negsuc, is_zero, inl, inr,
}
use dpdk_udp_receiver.Ports.{
  Ethdev, unless_zero, unless_negative, rings, set_up_rx, set_up_tx, start_port, configure_port,
  port_init,
}
use dpdk_udp_receiver.Ports.Started.{IsEthdev, port_init-eq-zero}
use dpdk_udp_receiver.Boot.{Machine, num_mbufs, open_ports, start_devices}

-- Whatever the result, the state has the property.
unless_zero-keeps {ℓ} :
    {S : Type ℓ} (P : S → Type 0) (c : ℤ × S) (next : S → ℤ × S)
    → P c.1
    → ((s : S) → P s → P (next s).1)
    → P (unless_zero c next).1
unfolding unless_zero
unless_zero-keeps P (pos zero, s) next h k = k s h
unless_zero-keeps P (pos (suc n), s) next h k = h
unless_zero-keeps P (negsuc n, s) next h k = h

unless_negative-keeps {ℓ} :
    {S : Type ℓ} (P : S → Type 0) (c : ℤ × S) (next : S → ℤ × S)
    → P c.1
    → ((s : S) → P s → P (next s).1)
    → P (unless_negative c next).1
unfolding unless_negative
unless_negative-keeps P (pos n, s) next h k = k s h
unless_negative-keeps P (negsuc n, s) next h k = h

-- What rte_ethdev.h promises of the calls on a port: another port that is started stays started.
pub record IsApart (e : Ethdev) (started : ℕ → e.State → Bool) (port other : ℕ) : Type 0 where
  pub info_get_keeps :
      (s : e.State) → started other s ≡ true → started other (e.info_get port s).1 ≡ true
  pub configure_keeps :
      (rx tx : ℕ) (offloads : Bool) (s : e.State)
      → started other s ≡ true
      → started other (e.configure port rx tx offloads s).1 ≡ true
  pub adjust_keeps :
      (s : e.State)
      → started other s ≡ true
      → started other (e.adjust_nb_rx_tx_desc port s).1 ≡ true
  pub rx_keeps :
      (q nb_rxd : ℕ) (s : e.State)
      → started other s ≡ true
      → started other (e.rx_queue_setup port q nb_rxd s).1 ≡ true
  pub tx_keeps :
      (q nb_txd : ℕ) (offloads : Bool) (s : e.State)
      → started other s ≡ true
      → started other (e.tx_queue_setup port q nb_txd offloads s).1 ≡ true
  pub start_keeps : (s : e.State) → started other s ≡ true → started other (e.start port s).1 ≡ true
  pub macaddr_keeps :
      (s : e.State) → started other s ≡ true → started other (e.macaddr_get port s).1 ≡ true

module _ (e : Ethdev) (started : ℕ → e.State → Bool) where
  module _ (port other : ℕ) (h : IsApart e started port other) where
    abbrev Stays : e.State → Type 0
    Stays s = started other s ≡ true

    start_port-keeps : (s : e.State) → Stays s → Stays (start_port e port s).1
    unfolding start_port
    start_port-keeps s k =
        unless_negative-keeps Stays _ _ (h.start_keeps s k)
          λ s1 k1. unless_zero-keeps Stays _ _ (h.macaddr_keeps s1 k1) λ s2 k2. k2

    set_up_tx-keeps :
        (offloads : Bool) (n q : ℕ) (s : e.State)
        → Stays s
        → Stays (set_up_tx e port offloads n q (start_port e port) s).1
    unfolding set_up_tx
    set_up_tx-keeps offloads zero q s k = start_port-keeps s k
    set_up_tx-keeps offloads (suc n) q s k =
        unless_negative-keeps Stays _ _ (h.tx_keeps q (e.nb_txd s) offloads s k)
          (set_up_tx-keeps offloads n (q + 1))

    set_up_rx-keeps :
        (offloads : Bool) (n q : ℕ) (s : e.State)
        → Stays s
        → Stays (set_up_rx e port n q (set_up_tx e port offloads rings 0 (start_port e port)) s).1
    unfolding set_up_rx
    set_up_rx-keeps offloads zero q s k = set_up_tx-keeps offloads rings 0 s k
    set_up_rx-keeps offloads (suc n) q s k =
        unless_negative-keeps Stays _ _ (h.rx_keeps q (e.nb_rxd s) s k)
          (set_up_rx-keeps offloads n (q + 1))

    configure_port-keeps :
        (fast_free : Bool) (s : e.State) → Stays s → Stays (configure_port e port fast_free s).1
    unfolding configure_port
    configure_port-keeps fast_free s k =
        unless_zero-keeps Stays _ _ (h.configure_keeps rings rings fast_free s k) λ s1 k1.
          unless_zero-keeps Stays _ _ (h.adjust_keeps s1 k1) (set_up_rx-keeps fast_free rings 0)

    port_init-keeps : (s : e.State) → Stays s → Stays (port_init e port s).1
    unfolding port_init
    port_init-keeps s k = elim (Bool-cases (e.is_valid_port port s)) [
      | inl valid ↦
          rw valid (unless_zero-keeps Stays _ _ (h.info_get_keeps s k) (configure_port-keeps _))
      | inr not_valid ↦ rw not_valid k
    ]

  module _ (laws : IsEthdev e started)
      (apart : (port other : ℕ) → port ≢ other → IsApart e started port other) where
    is_zero-eq : (r : ℤ) → is_zero r ≡ true → r ≡ pos 0
    is_zero-eq (pos zero) h = refl
    is_zero-eq (pos (suc n)) h = ground (arith, h)
    is_zero-eq (negsuc n) h = ground (arith, h)

    -- A port that is started stays so: in its own turn it is started again.
    port_init-stays :
        (port other : ℕ) (s : e.State)
        → started other s ≡ true
        → (port_init e port s).0 ≡ pos 0
        → started other (port_init e port s).1 ≡ true
    port_init-stays port other s h ok = elim (Bool-cases (port == other)) [
      | inl same ↦ rw (← (==_iff port other).0 same) (port_init-eq-zero e started laws port s ok).1
      | inr different ↦
          port_init-keeps port other (apart port other (λ eq. ground (arith, ==_iff port other))) s
            h
    ]

    -- A port of the loop that did not end it.
    open_ports-some :
        (port : ℕ) (ports : List ℕ) (s t : e.State)
        → open_ports e (port ∷ ports) s ≡ some t
        → ((port_init e port s).0 ≡ pos 0) × (open_ports e ports (port_init e port s).1 ≡ some t)
    unfolding open_ports
    open_ports-some port ports s t = split (port_init e port s).0
      where
        split :
            (r : ℤ)
            → elim (is_zero r) [ true ↦ open_ports e ports (port_init e port s).1 | false ↦ none ]
              ≡ some t
            → (r ≡ pos 0) × (open_ports e ports (port_init e port s).1 ≡ some t)
        split (pos zero) eq = (refl, eq)
        split (pos (suc n)) eq = ground (arith, eq)
        split (negsuc n) eq = ground (arith, eq)

    open_ports-stays :
        (ports : List ℕ) (other : ℕ) (s t : e.State)
        → open_ports e ports s ≡ some t
        → started other s ≡ true
        → started other t ≡ true
    unfolding open_ports
    open_ports-stays [] other s t eq h = cc
    open_ports-stays (port ∷ ports) other s t eq h =
        let first = open_ports-some port ports s t eq in
        open_ports-stays ports other (port_init e port s).1 t first.1
          (port_init-stays port other s h first.0)

    pub open_ports-AreStarted :
        (ports : List ℕ) (s t : e.State)
        → open_ports e ports s ≡ some t
        → All (λ port. started port t ≡ true) ports
    open_ports-AreStarted [] s t eq = tt
    open_ports-AreStarted (port ∷ ports) s t eq =
        let first = open_ports-some port ports s t eq in
        let now = port_init-eq-zero e started laws port s first.0 in
        (
          open_ports-stays ports port (port_init e port s).1 t first.1 now.1,
          open_ports-AreStarted ports (port_init e port s).1 t first.1,
        )

    -- The ports of the loop are those that the devices have after the pool is made.
    pub start_devices-AreStarted :
        (m : Machine e) (s t : e.State)
        → start_devices e m s ≡ some t
        → All
            (λ port. started port t ≡ true)
            (m.each_dev (m.pktmbuf_pool_create (num_mbufs * m.count_avail s % 2 ^ 32) s).1)
    unfolding start_devices
    start_devices-AreStarted m s t =
        split (m.count_avail s == 0)
          (m.pktmbuf_pool_create (num_mbufs * m.count_avail s % 2 ^ 32) s).0
      where
        split :
            (none_there made : Bool)
            → elim none_there [
              | true ↦ none
              | false ↦ elim made [
                | true ↦
                    open_ports e
                      (m.each_dev
                        (m.pktmbuf_pool_create (num_mbufs * m.count_avail s % 2 ^ 32) s).1)
                      (m.pktmbuf_pool_create (num_mbufs * m.count_avail s % 2 ^ 32) s).1
                | false ↦ none
              ]
            ]
              ≡ some t
            → All
                (λ port. started port t ≡ true)
                (m.each_dev (m.pktmbuf_pool_create (num_mbufs * m.count_avail s % 2 ^ 32) s).1)
        split true made eq = ground (arith, eq)
        split false true eq = open_ports-AreStarted _ _ t eq
        split false false eq = ground (arith, eq)
