-- ===== src/Assemble/Arrival.antt =====
-- The rounds of `consumer_thread` with GODOT over the message buffers in its ring: the two loops
-- that discard, and then the assembly of what is in the buffers.
use dpdk_udp_receiver.Common.{
  ℕ, suc, ◌+◌, ◌%◌, ◌≡◌, ◌∙◌, refl, ap, arith, true, some, List, [], ◌∷◌, map, length, Result, ok,
  ◌>>=◌, >>=-eq-ok, if◌then◌else◌, ◌==◌,
}
use dpdk_udp_receiver.Dpdk.{Dpdk, Lawful}
use dpdk_udp_receiver.Dpdk.Laws.{dequeue-cons}
use dpdk_udp_receiver.Channel.{Config, Packet, Channel, packet_at, pack_num}
use dpdk_udp_receiver.Assemble.{
  Consumer, syncing, running, new_consumer, up, copy_packet, open_frame, fill_frame, take_frame,
  open_tmp, assemble, assemble_all, count_packet, run_packet, discard, handle, poll, round, rounds,
}
use dpdk_udp_receiver.Assemble.Frames.{Assembled}

module _ (d : Dpdk) where
  -- The state with what assembly does not touch set anew.
  abbrev pub dress : d.Ring → d.Pool → ℕ → ℕ → ℕ → Channel d × Consumer → Channel d × Consumer
  dress r m count mis seq (c, k) = (
    record c { ring1_2 = r; send_pool = m; global_count = count; mis = mis },
    record k { packet_seq = seq },
  )

  -- The packets in the message buffers.
  abbrev pub packets : Channel d → List ℕ → List Packet
  packets c = map (λ o. packet_at (c.messages o))

module _ (cfg : Config) (d : Dpdk) where
  assemble-dress :
      (r : d.Ring) (m : d.Pool) (count mis seq : ℕ) (p : Packet) (s t : Channel d × Consumer)
      → assemble cfg d p s ≡ ok t
      → assemble cfg d p (dress d r m count mis seq s) ≡ ok (dress d r m count mis seq t)
  unfolding assemble open_tmp take_frame open_frame fill_frame copy_packet
  assemble-dress r m count mis seq p s t e = ground arith

  assemble-same :
      (p : Packet) (s t : Channel d × Consumer)
      → assemble cfg d p s ≡ ok t
      → (t.1.loop ≡ s.1.loop) × (t.0.messages ≡ s.0.messages)
  unfolding assemble open_tmp take_frame open_frame fill_frame copy_packet
  assemble-same p s t e = ground arith

  -- What the rounds end in.
  pub record Arrived (y : Channel d × Consumer) (r : Result (Channel d × Consumer)) : Type 0 where
    pub ring : d.Ring
    pub pool : d.Pool
    pub count : ℕ
    pub mis : ℕ
    pub seq : ℕ
    pub emptied : d.objects ring ≡ []
    pub returns : r ≡ ok (dress d ring pool count mis seq y)

  module _ (laws : Lawful d) (on : cfg.godot ≡ true) where
    round-dress :
        (x : ℕ) (rest r : d.Ring) (m : d.Pool) (count mis seq : ℕ) (s t : Channel d × Consumer)
        → s.1.loop ≡ running
        → d.dequeue r ≡ some (x, rest)
        → assemble cfg d (packet_at (s.0.messages x)) s ≡ ok t
        → round cfg d (dress d r m count mis seq s)
          ≡ ok (
              dress d rest
                (d.put x m)
                (up count)
                (if seq == (packet_at (s.0.messages x)).packet_seq then mis else up mis)
                (((packet_at (s.0.messages x)).packet_seq + 1) % pack_num)
                t)
    unfolding round poll handle run_packet count_packet
    round-dress x rest r m count mis seq s t loop got e =
        let p = packet_at (s.0.messages x) in
        ground (
          arith,
          loop,
          got,
          on,
          assemble-dress rest (d.put x m) (up count) (if seq == p.packet_seq then mis else up mis)
              ((p.packet_seq + 1) % pack_num) p s t e,
        )

    rounds-Arrived :
        (os : List ℕ) (r : d.Ring) (m : d.Pool) (count mis seq : ℕ) (s y : Channel d × Consumer)
        → d.objects r ≡ os
        → s.1.loop ≡ running
        → assemble_all cfg d (packets d s.0 os) s ≡ ok y
        → Arrived y (rounds cfg d (length os) (dress d r m count mis seq s))
    unfolding rounds assemble_all
    rounds-Arrived [] r m count mis seq s y held loop e = record {
      ring = r;
      pool = m;
      count = count;
      mis = mis;
      seq = seq;
      emptied = held;
      returns = cc;
    }
    rounds-Arrived (x ∷ os) r m count mis seq s y held loop e =
        let p = packet_at (s.0.messages x) in
        let (rest, got, left) = dequeue-cons d laws x os r held in
        let (t, first, others) =
          >>=-eq-ok (assemble_all cfg d (packets d s.0 os)) (assemble cfg d p s) e in
        let same = assemble-same p s t first in
        let after =
          rounds-Arrived os rest (d.put x m) (up count)
            (if seq == p.packet_seq then mis else up mis) ((p.packet_seq + 1) % pack_num) t y left
            (same.0 ∙ loop) (rw same.1 others) in
        record {
          ring = after.ring;
          pool = after.pool;
          count = after.count;
          mis = after.mis;
          seq = after.seq;
          emptied = after.emptied;
          returns =
              ap (λ z. z >>= rounds cfg d (length os))
                (round-dress x rest r m count mis seq s t loop got first)
              ∙ after.returns;
        }

    -- The consumer once it is in its last loop.
    abbrev pub in_last : Consumer
    in_last = record new_consumer { loop = running }

    -- The first loop ends where it finds `assem_init` set, and the second with a packet 43, the last
    -- of a frame.
    round-first :
        (c : Channel d)
        → c.assem_init ≡ true
        → round cfg d (c, new_consumer) ≡ ok (c, record new_consumer { loop = syncing })
    unfolding round new_consumer
    round-first c begun = rw begun refl

    round-second :
        (x : ℕ) (rest : d.Ring) (c : Channel d)
        → d.dequeue c.ring1_2 ≡ some (x, rest)
        → (packet_at (c.messages x)).packet_seq ≡ 43
        → round cfg d (c, record new_consumer { loop = syncing })
          ≡ ok (record c { ring1_2 = rest; send_pool = d.put x c.send_pool }, in_last)
    unfolding round poll handle discard new_consumer
    round-second x rest c got last = ground (arith, got, last)

    -- From the beginning of the thread: where the ring holds a packet 43 and then packets that are
    -- assembled to a frame, as many rounds as there are buffers, and one for the flag, assemble it.
    pub rounds-Assembled :
        (f s x : ℕ) (p : Packet) (ps : List Packet) (os : List ℕ) (c : Channel d)
        → c.assem_init ≡ true
        → d.objects c.ring1_2 ≡ x ∷ os
        → (packet_at (c.messages x)).packet_seq ≡ 43
        → packets d c os ≡ p ∷ ps
        → Assembled cfg d f s p ps c in_last (assemble_all cfg d (p ∷ ps) (c, in_last))
        → (seq : ℕ) × Assembled cfg d f s p ps c
            (record in_last { packet_seq = seq })
            (rounds cfg d (suc (suc (length os))) (c, new_consumer))
    unfolding rounds
    rounds-Assembled f s x p ps os c begun held last are a =
        let (rest, got, left) = dequeue-cons d laws x os c.ring1_2 held in
        let after =
          rounds-Arrived os rest (d.put x c.send_pool) c.global_count c.mis in_last.packet_seq
            (c, in_last) (a.end, record in_last { tmp_frame = some f }) left refl
            (ap (λ qs. assemble_all cfg d qs (c, in_last)) are ∙ a.returns) in
        (
          after.seq,
          record {
            end =
                (dress d after.ring after.pool after.count after.mis after.seq (a.end, in_last)).0;
            returns =
                ap (λ z. z >>= rounds cfg d (suc (length os))) (round-first c begun)
                ∙ ap (λ z. z >>= rounds cfg d (length os)) (round-second x rest c got last)
                ∙ after.returns;
            indexed = a.indexed;
            announced = a.announced;
            passed = a.passed;
            taken = a.taken;
            named = a.named;
            sized = a.sized;
            counted = a.counted;
            held = a.held;
            flagged = a.flagged;
          },
        )
