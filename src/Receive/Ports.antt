-- ===== src/Receive/Ports.antt =====
-- Which channels a receive thread serves.
use dpdk_udp_receiver.Common.{ℕ, suc, ◌≡◌, arith, List, ◌∷◌, ok, >>=-eq-ok}
use dpdk_udp_receiver.Dpdk.{Dpdk}
use dpdk_udp_receiver.Channel.{Channel}
use dpdk_udp_receiver.Receive.{Mbuf, receive, turns, lcore_round}

module _ (d : Dpdk) (bursts : ℕ → List Mbuf) where
  -- The channel has received the burst of its port.
  abbrev pub Turn : Channel d → Channel d → Type 0
  Turn c c' = (freed : List Mbuf) × (receive d (bursts c.proc_id) c ≡ ok (c', freed))

  turns-suc :
      (n : ℕ) (c : Channel d) (cs cs' : List (Channel d))
      → turns d (suc n) bursts (c ∷ cs) ≡ ok cs'
      → (c' : Channel d) × (rest : List (Channel d)) × Turn c c'
        × (turns d n bursts cs ≡ ok rest)
        × (cs' ≡ c' ∷ rest)
  unfolding turns
  turns-suc n c cs cs' e =
      let (got, first, after) = >>=-eq-ok _ (receive d (bursts c.proc_id) c) e in
      let (rest, second, end) = >>=-eq-ok _ (turns d n bursts cs) after in
      (got.0, rest, (got.1, first), second, ground arith)

  -- A round of a receive thread over at least three channels that does not fail gives each of the
  -- first three the burst of its own port, and leaves every channel after them as it was.
  pub lcore_round-eq-ok :
      (x y z : Channel d) (cs cs' : List (Channel d))
      → lcore_round d bursts (x ∷ y ∷ z ∷ cs) ≡ ok cs'
      → (x' : Channel d) × (y' : Channel d) × (z' : Channel d) × Turn x x'
        × Turn y y'
        × Turn z z'
        × (cs' ≡ x' ∷ y' ∷ z' ∷ cs)
  unfolding lcore_round turns
  lcore_round-eq-ok x y z cs cs' e =
      let (x', xs, tx, ex, sx) = turns-suc 2 x (y ∷ z ∷ cs) cs' e in
      let (y', ys, ty, ey, sy) = turns-suc 1 y (z ∷ cs) xs ex in
      let (z', zs, tz, ez, sz) = turns-suc 0 z cs ys ey in (x', y', z', tx, ty, tz, ground arith)
