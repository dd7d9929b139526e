-- ===== src/Route/Replies.antt =====
-- `send_return_msg` of repeater.cpp: each DHSM has a ring for replies, which is made with its first
-- message.
use dpdk_udp_receiver.Common.{
  ℕ, ◌<◌, ◌≡◌, arith, Option, none, some, lt→ltb, ltb, if◌then◌else◌, Result, ok, fault, lookup,
  modify, value_or, Option-cases, inl, inr,
}
use dpdk_udp_receiver.Route.Rings.{Registry}
use dpdk_udp_receiver.Route.Names.{res_ring_name}
use dpdk_udp_receiver.Route.{DhsmMessage, RouteTable}

-- `notify` is `rte_ring_enqueue(ring, NULL)`, a parameter of the model; on a null pointer it is an
-- access out of bounds.
module _ (g : Registry) (notify : ℕ → g.State → g.State) where
  -- The table with a ring for the DHSM, made if there was no entry for it.
  unfoldable pub ensure_ring : DhsmMessage → RouteTable × g.State → RouteTable × g.State
  ensure_ring msg (t, s) = elim (lookup msg.dhsm_id t.dhsm_res_ring_map) [
    | some r ↦ (t, s)
    | none ↦
        let (r, s') = g.create (res_ring_name msg.channel_id) s in
        (record t { dhsm_res_ring_map = modify msg.dhsm_id none (λ _. r) t.dhsm_res_ring_map }, s')
  ]

  unfoldable pub reply : DhsmMessage → RouteTable × g.State → Result (ℕ × (RouteTable × g.State))
  reply msg (t, s) = elim (value_or (lookup msg.dhsm_id t.dhsm_res_ring_map) none) [
    | none ↦ fault
    | some r ↦ ok (1, (t, notify r s))
  ]

  unfoldable pub send_return_msg :
      Option DhsmMessage → RouteTable × g.State → Result (ℕ × (RouteTable × g.State))
  send_return_msg none ts = ok (0, ts)
  send_return_msg (some msg) ts =
      if ltb msg.channel_id 16 then reply msg (ensure_ring msg ts) else ok (0, ts)

  -- The ring of a DHSM, if it has one that is not a null pointer.
  abbrev pub reply_ring : RouteTable → ℕ → Option ℕ
  reply_ring t dhsm = value_or (lookup dhsm t.dhsm_res_ring_map) none

  reply-eq-ok :
      (msg : DhsmMessage) (t t' : RouteTable) (s s' : g.State) (n : ℕ)
      → reply msg (t, s) ≡ ok (n, (t', s'))
      → (r : ℕ) × (reply_ring t' msg.dhsm_id ≡ some r) × (t' ≡ t)
  unfolding reply
  reply-eq-ok msg t t' s s' n e = elim (Option-cases (reply_ring t msg.dhsm_id)) [
    | inl null ↦ ground (arith, e)
    | inr (r, got) ↦ (r, ground (arith, e), ground (arith, e))
  ]

  -- Once a message of a DHSM with a channel below 16 was answered, a later message of the same DHSM
  -- with a channel below 16 is answered through the same ring: no ring is made, and the table stays
  -- as it is.
  pub send_return_msg-again :
      (msg later : DhsmMessage) (t t' : RouteTable) (s s' s2 : g.State) (n : ℕ)
      → msg.channel_id < 16
      → send_return_msg (some msg) (t, s) ≡ ok (n, (t', s'))
      → later.channel_id < 16
      → later.dhsm_id ≡ msg.dhsm_id
      → (r : ℕ) × (reply_ring t' msg.dhsm_id ≡ some r)
        × (send_return_msg (some later) (t', s2) ≡ ok (1, (t', notify r s2)))
  unfolding send_return_msg ensure_ring reply
  send_return_msg-again msg later t t' s s' s2 n low e low' same =
      let (r, got, _) =
        reply-eq-ok msg (ensure_ring msg (t, s)).0 t' (ensure_ring msg (t, s)).1 s' n
          (ground (arith, e, lt→ltb msg.channel_id 16 low)) in
      (r, got, ground (arith, lt→ltb later.channel_id 16 low'))
