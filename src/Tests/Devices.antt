-- ===== src/Tests/Devices.antt =====
-- The theorem about ports, with a device that has two ports and counts what is started.
use dpdk_udp_receiver.Common.{
  ℕ, ◌≡◌, refl, arith, ==_iff, Bool, true, false, ltb, ◌==◌, pos, if◌then◌else◌,
}
use dpdk_udp_receiver.Ports.{
  Ethdev, port_init, unless_zero, unless_negative, configure_port, set_up_rx, set_up_tx, start_port,
}
use dpdk_udp_receiver.Ports.Started.{IsEthdev, port_init-eq-zero}

-- The state says which ports are started.
abbrev pub two_ports : Ethdev
two_ports = record {
  State = ℕ → Bool;
  nb_rxd = λ s. 1024;
  nb_txd = λ s. 1024;
  is_valid_port = λ port s. ltb port 2;
  info_get = λ port s. ((pos 0, (true, false)), s);
  configure = λ port rx tx offloads s. (pos 0, s);
  adjust_nb_rx_tx_desc = λ port s. (pos 0, s);
  rx_queue_setup = λ port queue nb_rxd s. (pos 0, s);
  tx_queue_setup = λ port queue nb_txd offloads s. (pos 0, s);
  start = λ port s. (pos 0, λ p. if p == port then true else s p);
  macaddr_get = λ port s. (pos 0, s);
}

pub two_ports-IsEthdev : IsEthdev two_ports (λ port s. s port)
two_ports-IsEthdev = record {
  start_starts = λ port s ok. ground (arith, ==_iff port port);
  macaddr_get_keeps = λ port s. refl;
}

abbrev pub stopped : ℕ → Bool
stopped p = false

port_init-eq-zero_example :
    (two_ports.is_valid_port 1 stopped ≡ true) × ((port_init two_ports 1 stopped).1 1 ≡ true)
unfolding port_init unless_zero unless_negative configure_port set_up_rx set_up_tx start_port
port_init-eq-zero_example =
    port_init-eq-zero two_ports (λ port s. s port) two_ports-IsEthdev 1 stopped refl

no_third_port : (port_init two_ports 2 stopped).1 2 ≡ false
unfolding port_init
no_third_port = refl
