-- ===== src/Pipeline/Journey.antt =====
-- A frame's way through the threads of a channel, from its packets to its message.
use dpdk_udp_receiver.Common.{
  some-injective, ℕ, ◌+◌, ◌*◌, ◌/◌, ◌%◌, ◌<◌, ◌≤◌, ◌≡◌, sym, ap, ◌∙◌, arith, Option, none, some,
  List, [], ◌∷◌, ◌++◌, length, le→not-ltb, update_self, Result, ok, ◌>>=◌, All, All-map,
}
use dpdk_udp_receiver.Dpdk.{Dpdk, Lawful}
use dpdk_udp_receiver.Dpdk.Laws.{dequeue-cons}
use dpdk_udp_receiver.Channel.{
  Config, Packet, Channel, pack_num, data_length, message_length, index_size,
}
use dpdk_udp_receiver.Assemble.{Consumer, assemble_all}
use dpdk_udp_receiver.Assemble.Copy.{Holds}
use dpdk_udp_receiver.Assemble.Frames.{Belong, Separate, Assembled, assemble_all-Assembled}
use dpdk_udp_receiver.Align.{Wait, check, align, pass_on}
use dpdk_udp_receiver.Send.{Sender, send, send_frame}
use dpdk_udp_receiver.Send.Message.{Sent, send_frame-Sent}

module _ (cfg : Config) (d : Dpdk) where
  -- What follows the rounds of the consumer thread that end in `r`: two rounds of the align thread
  -- with the clock at `t1` and `t2`, and one of the send thread.
  abbrev pub onward : Result (Channel d × Consumer) → ℕ → ℕ → Sender → Result (Channel d × Sender)
  onward r t1 t2 s = r >>= λ y. send d ((align cfg d t2 (align cfg d t1 (y.0, none))).0, s)

  -- The way of a frame, with the GODOT part of the consumer thread for each of its packets.
  abbrev pub journey :
      List Packet → ℕ → ℕ → Channel d × Consumer → Sender → Result (Channel d × Sender)
  journey ps t1 t2 x s = onward (assemble_all cfg d ps x) t1 t2 s

  -- The message has the packet's payload in the packet's row, as far as it reaches.
  abbrev pub Carries : Sender → Packet → Type 0
  Carries s q =
      (o : ℕ)
      → o < q.packet_len
      → q.packet_seq * data_length + o < message_length
      → s.tmp (q.packet_seq * data_length + o + 2) ≡ q.payload o

  pub record Delivered (f seq : ℕ) (ps : List Packet) (m : d.Pool) (s : Sender)
      (r : Result (Channel d × Sender)) : Type 0 where
    pub end : Channel d
    pub locals : Sender
    pub returns : r ≡ ok (end, locals)
    pub carried : All (Carries locals) ps
    pub header : (locals.tmp 0 ≡ s.send_id % 256) × (locals.tmp 1 ≡ s.send_id / 256 % 256)
    pub unindexed : end.index seq ≡ none
    pub returned : end.frame_pool ≡ d.put f m
    pub emptied : (end.frames f).count ≡ 0
    pub nothing_waits : (d.objects end.ring2_3 ≡ []) × (d.objects end.ring3_4 ≡ [])

  module _ (laws : Lawful d) where
    -- An empty ring with room gives back what is put into it.
    through :
        (f : ℕ) (r : d.Ring)
        → d.objects r ≡ []
        → 0 < d.capacity r
        → (rest : d.Ring) × (d.dequeue (d.enqueue f r).1 ≡ some (f, rest)) × (d.objects rest ≡ [])
    through f r nothing room = dequeue-cons d laws f [] (d.enqueue f r).1 (
        (laws.enqueue_room f r (omega (arith, ap (length {0}) nothing, room))).1
        ∙ ap (λ os. os ++ (f ∷ [])) nothing)

    -- The first round of the align thread takes the frame up, and the second passes it on.
    align-taken :
        (t f : ℕ) (rest : d.Ring) (c : Channel d)
        → d.dequeue c.ring2_3 ≡ some (f, rest)
        → align cfg d t (c, none)
          ≡ (record c { ring2_3 = rest }, some (record { frame = f; prev_tsc = t }))
    unfolding align
    align-taken t f rest c got = rw (align, got)

    align-full :
        (t : ℕ) (w : Wait) (c : Channel d)
        → (c.frames w.frame).packet_num ≤ (c.frames w.frame).count
        → align cfg d t (c, some w) ≡ (pass_on cfg d w.frame c, none)
    unfolding align check
    align-full t w c full = rw (le→not-ltb _ _ full)

    send-taken :
        (f : ℕ) (rest : d.Ring) (c : Channel d) (s : Sender)
        → d.dequeue c.ring3_4 ≡ some (f, rest)
        → send d (c, s) ≡ send_frame d f (record c { ring3_4 = rest }, s)
    unfolding send
    send-taken f rest c s got = rw (send, got)

    -- Send what the align thread passed on, from a channel in which the frame stands alone.
    module _ (f seq t1 t2 : ℕ) (p : Packet) (ps : List Packet) (c : Channel d) (k : Consumer)
        (s : Sender) (m : d.Pool) (got : d.get c.frame_pool ≡ some (f, m))
        {r : Result (Channel d × Consumer)} (a : Assembled cfg d f seq p ps c k r)
        (whole : length (p ∷ ps) ≡ pack_num) (inside : seq < index_size)
        (announced : d.objects c.ring2_3 ≡ []) (room : 0 < d.capacity c.ring2_3)
        (passed : d.objects c.ring3_4 ≡ []) (room_passed : 0 < d.capacity c.ring3_4) where
      abbrev taken_ring : d.Ring
      taken_ring = (through f c.ring2_3 announced room).0

      abbrev passed_ring : d.Ring
      passed_ring = (through f c.ring3_4 passed room_passed).0

      -- The channel after the align thread, and as the send thread finds it.
      abbrev aligned : Channel d
      aligned = pass_on cfg d f (record (a.end) { ring2_3 = taken_ring })

      abbrev at_send : Channel d
      at_send = record aligned { ring3_4 = passed_ring }

      both_aligned : (align cfg d t2 (align cfg d t1 (a.end, none))).0 ≡ aligned
      both_aligned =
          ap (λ x. (align cfg d t2 x).0)
            (align-taken t1 f taken_ring a.end
              (rw a.announced (through f c.ring2_3 announced room).1))
          ∙ ap (λ (x : Channel d × Option Wait). x.0)
              (align-full t2 (record { frame = f; prev_tsc = t1 })
                (record (a.end) { ring2_3 = taken_ring })
                (omega (arith, a.sized, a.counted, whole)))

      sent : Sent d f at_send s (send_frame d f (at_send, s))
      unfolding pass_on
      sent = send_frame-Sent d f at_send s (rw a.named inside)

      onward-sent : onward r t1 t2 s ≡ send_frame d f (at_send, s)
      unfolding pass_on
      onward-sent =
          ap
            (λ r. r >>= λ (y : Channel d × Consumer).
              send d ((align cfg d t2 (align cfg d t1 (y.0, none))).0, s))
            a.returns
          ∙ ap (λ x. send d (x, s)) both_aligned
          ∙ send-taken f passed_ring aligned s
              (rw a.passed (through f c.ring3_4 passed room_passed).1)

      same_pool : a.end.frame_pool ≡ m
      same_pool = ap (λ (x : ℕ × d.Pool). x.1) (some-injective (sym a.taken ∙ got))

      pub assembled-Delivered : Delivered f seq (p ∷ ps) m s (onward r t1 t2 s)
      unfolding pass_on
      assembled-Delivered = record {
        end = sent.end;
        locals = sent.locals;
        returns = onward-sent ∙ sent.returns;
        carried =
            All-map (Holds (a.end.frames f)) (Carries sent.locals)
              (λ q holds o below reach.
                sent.payload (q.packet_seq * data_length + o) reach ∙ holds o below)
              (p ∷ ps) a.held;
        header = sent.header;
        unindexed = ap (λ i. i seq) sent.unindexed ∙ rw a.named (update_self a.end.index seq none);
        returned = sent.returned ∙ ap (d.put f) same_pool;
        emptied = sent.emptied;
        nothing_waits = (
          ap d.objects sent.same_rings.0 ∙ (through f c.ring2_3 announced room).2,
          ap d.objects sent.same_rings.1 ∙ (through f c.ring3_4 passed room_passed).2,
        );
      }

    -- With empty rings that have room, a free slot of the index and an empty frame to take: the 44
    -- packets of a frame, valid and for rows of their own, in whatever order they come, then two
    -- rounds of the align thread, whatever the clock, and one of the send thread lead to a message
    -- that has each packet's payload in the packet's row, as far as the first 64040 bytes reach,
    -- after the header. Then the frame is empty and back in the pool, its slot of the index is
    -- free, and no ring holds it.
    pub journey-Delivered :
        (f seq t1 t2 : ℕ) (p : Packet) (ps : List Packet) (c : Channel d) (k : Consumer)
        (s : Sender) (m : d.Pool)
        → d.get c.frame_pool ≡ some (f, m)
        → c.index seq ≡ none
        → (c.frames f).count ≡ 0
        → Belong seq (p ∷ ps)
        → Separate (p ∷ ps)
        → length (p ∷ ps) ≡ pack_num
        → seq < index_size
        → (d.objects c.ring2_3 ≡ []) × (0 < d.capacity c.ring2_3)
        → (d.objects c.ring3_4 ≡ []) × (0 < d.capacity c.ring3_4)
        → Delivered f seq (p ∷ ps) m s (journey (p ∷ ps) t1 t2 (c, k) s)
    journey-Delivered f seq t1 t2 p ps c k s m got free empty b sep whole inside first second =
        assembled-Delivered f seq t1 t2 p ps c k s m got
          (assemble_all-Assembled cfg d p ps seq f m c k free got empty b sep) whole inside first.0
          first.1 second.0 second.1
