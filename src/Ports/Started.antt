-- ===== src/Ports/Started.antt =====
-- When `port_init` reports success, the port runs.
use dpdk_udp_receiver.Common.{
  ℕ, zero, suc, ◌+◌, ◌≡◌, sym, subst, refl, ◌∙◌, arith, Bool, true, false, ℤ, pos, negsuc,
  is_negative, Bool-cases, inl, inr,
}
use dpdk_udp_receiver.Ports.{
  Ethdev, unless_zero, unless_negative, rings, set_up_rx, set_up_tx, start_port, configure_port,
  port_init,
}

-- A result of 0 is reached only with the property.
abbrev pub Ends {ℓ} : {S : Type ℓ} → (S → Type 0) → ℤ × S → Type 0
Ends P c = c.0 ≡ pos 0 → P c.1

unless_zero-Ends {ℓ} :
    {S : Type ℓ} (P : S → Type 0) (c : ℤ × S) (next : S → ℤ × S)
    → Ends P (next c.1)
    → Ends P (unless_zero c next)
unfolding unless_zero
unless_zero-Ends P (pos zero, s) next k h = k h
unless_zero-Ends P (pos (suc n), s) next k h = ground (arith, h)
unless_zero-Ends P (negsuc n, s) next k h = ground (arith, h)

unless_negative-Ends {ℓ} :
    {S : Type ℓ} (P : S → Type 0) (c : ℤ × S) (next : S → ℤ × S)
    → (is_negative c.0 ≡ false → Ends P (next c.1))
    → Ends P (unless_negative c next)
unfolding unless_negative
unless_negative-Ends P (pos n, s) next k h = k refl h
unless_negative-Ends P (negsuc n, s) next k h = ground (arith, h)

-- What rte_ethdev.h promises of the calls: starting a port that does not fail leaves it started,
-- and reading its address does not stop it.
pub record IsEthdev (e : Ethdev) (started : ℕ → e.State → Bool) : Type 0 where
  pub start_starts :
      (port : ℕ) (s : e.State)
      → is_negative (e.start port s).0 ≡ false
      → started port (e.start port s).1 ≡ true
  pub macaddr_get_keeps :
      (port : ℕ) (s : e.State) → started port (e.macaddr_get port s).1 ≡ started port s

module _ (e : Ethdev) (started : ℕ → e.State → Bool) (laws : IsEthdev e started) (port : ℕ) where
  abbrev IsStarted : e.State → Type 0
  IsStarted s = started port s ≡ true

  start_port-Ends : (s : e.State) → Ends IsStarted (start_port e port s)
  unfolding start_port
  start_port-Ends s = unless_negative-Ends IsStarted (e.start port s) _ λ ok.
      unless_zero-Ends IsStarted (e.macaddr_get port (e.start port s).1) _
        λ _. laws.macaddr_get_keeps port (e.start port s).1 ∙ laws.start_starts port s ok

  set_up_tx-Ends :
      (offloads : Bool) (n q : ℕ) (s : e.State)
      → Ends IsStarted (set_up_tx e port offloads n q (start_port e port) s)
  unfolding set_up_tx
  set_up_tx-Ends offloads zero q s = start_port-Ends s
  set_up_tx-Ends offloads (suc n) q s =
      unless_negative-Ends IsStarted (e.tx_queue_setup port q (e.nb_txd s) offloads s) _
        λ _. set_up_tx-Ends offloads n (q + 1) _

  set_up_rx-Ends :
      (offloads : Bool) (n q : ℕ) (s : e.State)
      → Ends IsStarted
          (set_up_rx e port n q (set_up_tx e port offloads rings 0 (start_port e port)) s)
  unfolding set_up_rx
  set_up_rx-Ends offloads zero q s = set_up_tx-Ends offloads rings 0 s
  set_up_rx-Ends offloads (suc n) q s =
      unless_negative-Ends IsStarted (e.rx_queue_setup port q (e.nb_rxd s) s) _
        λ _. set_up_rx-Ends offloads n (q + 1) _

  configure_port-Ends :
      (fast_free : Bool) (s : e.State) → Ends IsStarted (configure_port e port fast_free s)
  unfolding configure_port
  configure_port-Ends fast_free s =
      unless_zero-Ends IsStarted (e.configure port rings rings fast_free s) _ (
        unless_zero-Ends IsStarted (e.adjust_nb_rx_tx_desc port _) _
          (set_up_rx-Ends fast_free rings 0 _))

  port_init-valid :
      (s : e.State)
      → e.is_valid_port port s ≡ true
      → port_init e port s
        ≡ unless_zero
            ((e.info_get port s).0.0, (e.info_get port s).1)
            (configure_port e port (e.info_get port s).0.1.0)
  unfolding port_init
  port_init-valid s valid = rw valid

  -- With calls that do what they promise, `port_init` returns 0 only for a valid port, and only
  -- when it has left the port started.
  pub port_init-eq-zero :
      (s : e.State)
      → (port_init e port s).0 ≡ pos 0
      → (e.is_valid_port port s ≡ true) × (started port (port_init e port s).1 ≡ true)
  unfolding port_init
  port_init-eq-zero s h = elim (Bool-cases (e.is_valid_port port s)) [
    | inl valid ↦ (
      valid,
      subst (Ends IsStarted) (sym (port_init-valid s valid))
          (unless_zero-Ends IsStarted _ _ (configure_port-Ends _ _)) h,
    )
    | inr not_valid ↦ ground (arith, h)
  ]
