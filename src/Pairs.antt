-- ===== src/Pairs.antt =====
-- `check_port_pair_config` of basicfwd.cpp: whether the pairs of ports that were given fit the mask
-- of enabled ports. The globals `port_pair_params` and `l2fwd_enabled_port_mask` are arguments.
pub mod Sets
pub mod Masks
use dpdk_udp_receiver.Common.{
  ℕ, ◌^◌, Bool, not, Option, none, some, List, [], ◌∷◌, ltb, ◌==◌, if◌then◌else◌, bit_and, bit_or,
  ℤ, pos, negsuc, Result, ok, fault, ◌>>=◌,
}

-- `struct port_pair_params`, with NUM_PORTS = 2.
pub record PortPair : Type 0 where
  pub port0 : ℕ
  pub port1 : ℕ

abbrev pub ports : PortPair → List ℕ
ports p = p.port0 ∷ p.port1 ∷ []

-- After the inner loop: the overlap with the pairs before, and the next mask.
abbrev pub join_mask : ℕ → Option ℕ → Option ℕ
join_mask config none = none
join_mask config (some mask) = if bit_and config mask == 0 then some (bit_or config mask) else none

-- The return value, and `l2fwd_enabled_port_mask` afterwards.
abbrev pub finish : ℕ → Option ℕ → ℤ × ℕ
finish enabled none = (negsuc 0, enabled)
finish enabled (some config) = (pos 0, bit_and enabled config)

-- `valid` is rte_eth_dev_is_valid_port.
module _ (valid : ℕ → Bool) where
  -- The inner loop, with the mask so far; none is the return value -1. A shift by 32 or more is
  -- undefined.
  unfoldable pub mark_ports : ℕ → List ℕ → ℕ → Result (Option ℕ)
  mark_ports enabled [] mask = ok (some mask)
  mark_ports enabled (portid ∷ rest) mask =
      if ltb portid 32
      then (if bit_and enabled (2 ^ portid) == 0
          then ok none
          else if not (valid portid)
          then ok none
          else mark_ports enabled rest (bit_or mask (2 ^ portid)))
      else fault

  unfoldable pub check_pairs : ℕ → List PortPair → Option ℕ → Result (Option ℕ)
  check_pairs enabled pairs none = ok none
  check_pairs enabled [] (some config) = ok (some config)
  check_pairs enabled (p ∷ pairs) (some config) = do
    mask ← mark_ports enabled (ports p) 0
    check_pairs enabled pairs (join_mask config mask)

  unfoldable pub check_port_pair_config : List PortPair → ℕ → Result (ℤ × ℕ)
  check_port_pair_config pairs enabled = do
    config ← check_pairs enabled pairs (some 0)
    ok (finish enabled config)
