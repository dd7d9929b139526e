-- ===== src/Repeater/Buffers.antt =====
-- The message buffers of the repeater, which go round between the pool and the ring.
-- rte_ring_create makes of APP_ID_RING_SIZE a ring for 127 objects, and the pool has 128.
use dpdk_udp_receiver.Common.{
  ℕ, ◌+◌, ◌-◌, ◌≤◌, ◌≡◌, ap, arith, List, [], ◌∷◌, length, Option-cases, inl, inr, ltb, Bool-cases,
}
use dpdk_udp_receiver.Dpdk.{Dpdk, Lawful}
use dpdk_udp_receiver.Dpdk.Laws.{length-dequeue, length-get, length-put, length-enqueue}
use dpdk_udp_receiver.Route.Rings.{Registry}
use dpdk_udp_receiver.Repeater.{Desk, thread1_round, thread2_round}

-- APP_ID_RING_SIZE.
abbrev pub app_id_ring_size : ℕ
app_id_ring_size = 128

-- Which thread has a round.
pub data Side : Type 0 where
  thread1 thread2 : Side

module _ (d : Dpdk) (g : Registry) where
  -- Rounds in any order.
  unfoldable pub take_turns : List Side → Desk d g → Desk d g
  take_turns [] s = s
  take_turns (thread1 ∷ ts) s = take_turns ts (thread1_round d g s)
  take_turns (thread2 ∷ ts) s = take_turns ts (thread2_round d g s)

  -- The buffers that are free, or in the ring.
  abbrev pub buffers : Desk d g → ℕ
  buffers s = length (d.free s.app_id_mempool) + length (d.objects s.app_id_ring)

  -- At most one of the buffers is lost, and the ring holds no more than it can.
  pub record IsTight (s : Desk d g) : Type 0 where
    pub capacity : d.capacity s.app_id_ring ≡ app_id_ring_size - 1
    pub few : length (d.objects s.app_id_ring) ≤ app_id_ring_size - 1
    pub most : buffers s ≤ app_id_ring_size
    pub least : app_id_ring_size - 1 ≤ buffers s

  module _ (laws : Lawful d) where
    thread1_round-IsTight : (s : Desk d g) → IsTight s → IsTight (thread1_round d g s)
    unfolding thread1_round
    thread1_round-IsTight s h = elim (Option-cases (d.dequeue s.app_id_ring)) [
      | inl empty ↦ rw (thread1_round, empty) h
      | inr ((o, rest), got) ↦
          let shorter = length-dequeue d laws o s.app_id_ring rest got in
          let longer = length-put d laws o s.app_id_mempool in
          rw (thread1_round, got)
            (record {
              capacity = omega (arith, h.capacity, (laws.dequeue_some o s.app_id_ring rest got).1);
              few = omega (arith, h.few, shorter);
              most = omega (arith, h.most, shorter, longer);
              least = omega (arith, h.least, shorter, longer);
            })
    ]

    -- A buffer is taken out of the pool and put into the ring, if that has room.
    thread2_round-IsTight : (s : Desk d g) → IsTight s → IsTight (thread2_round d g s)
    unfolding thread2_round
    thread2_round-IsTight s h = elim (Option-cases (d.get s.app_id_mempool)) [
      | inl empty ↦ rw (thread2_round, empty) h
      | inr ((o, rest), got) ↦
          let fewer = length-get d laws o s.app_id_mempool rest got in
          let same = laws.capacity_enqueue o s.app_id_ring in
          rw (thread2_round, got)
            (elim (Bool-cases (ltb (length (d.objects s.app_id_ring)) (d.capacity s.app_id_ring))) [
              | inl room ↦
                  let longer = length-enqueue d laws o s.app_id_ring (ground (arith, room)) in
                  record {
                    capacity = omega (arith, h.capacity, same);
                    few = ground (arith, h.capacity, room, longer);
                    most = omega (arith, h.most, fewer, longer);
                    least = omega (arith, h.least, fewer, longer);
                  }
              | inr full ↦
                  let kept =
                    ap (length {0}) (laws.enqueue_full o s.app_id_ring (ground (arith, full))).1 in
                  record {
                    capacity = omega (arith, h.capacity, same);
                    few = omega (arith, h.few, kept);
                    most = omega (arith, h.most, fewer, kept);
                    least = ground (arith, h.least, h.most, h.few, h.capacity, fewer, kept, full);
                  }
            ])
    ]

    -- From a ring for 127 objects and a pool of 128 buffers that together hold 127 or 128, whatever
    -- the order of the rounds: the ring never holds more than 127 objects, and pool and ring
    -- together always hold 127 or 128 buffers.
    pub take_turns-IsTight : (ts : List Side) (s : Desk d g) → IsTight s → IsTight (take_turns ts s)
    unfolding take_turns
    take_turns-IsTight [] s h = h
    take_turns-IsTight (thread1 ∷ ts) s h = take_turns-IsTight ts _ (thread1_round-IsTight s h)
    take_turns-IsTight (thread2 ∷ ts) s h = take_turns-IsTight ts _ (thread2_round-IsTight s h)
