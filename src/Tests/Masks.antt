-- ===== src/Tests/Masks.antt =====
-- The theorem about pairs of ports, with the ports 0 to 3 enabled in the mask 15.
use dpdk_udp_receiver.Common.{ℕ, ◌≡◌, refl, arith, Bool, ltb, List, [], ◌∷◌, ok, pos, negsuc}
use dpdk_udp_receiver.Pairs.{PortPair, check_port_pair_config, check_pairs, mark_ports}
use dpdk_udp_receiver.Pairs.Masks.{Checked, check_port_pair_config-Checked}

abbrev four : ℕ → Bool
four port = ltb port 4

abbrev two_pairs : List PortPair
two_pairs = record { port0 = 0; port1 = 3 } ∷ record { port0 = 2; port1 = 1 } ∷ []

abbrev overlapping : List PortPair
overlapping = record { port0 = 0; port1 = 3 } ∷ record { port0 = 2; port1 = 3 } ∷ []

check_port_pair_config-Checked_example :
    Checked four 15 two_pairs (check_port_pair_config four two_pairs 15)
check_port_pair_config-Checked_example =
    check_port_pair_config-Checked four 15 two_pairs
      (((omega arith, (omega arith, tt))), ((omega arith, (omega arith, tt)), tt))

two_pairs-fine : check_port_pair_config four two_pairs 31 ≡ ok (pos 0, 15)
unfolding check_port_pair_config check_pairs mark_ports
two_pairs-fine = refl

overlapping-refused : check_port_pair_config four overlapping 31 ≡ ok (negsuc 0, 31)
unfolding check_port_pair_config check_pairs mark_ports
overlapping-refused = refl
