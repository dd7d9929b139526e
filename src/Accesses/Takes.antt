-- ===== src/Accesses/Takes.antt =====
-- Taking a packet keeps the frames in order, in each of the loops of the consumer.
use dpdk_udp_receiver.Common.{
  ℕ, Bool, Option, ◌≡◌, ◌≢◌, refl, arith, subst, sym, ◌∙◌, Result, ok, ok-injective, Option-cases,
  goes, Bool-cases, inl, inr, ◌==◌, if◌then◌else◌,
}
use dpdk_udp_receiver.Dpdk.{Dpdk}
use dpdk_udp_receiver.Channel.{Config, Packet, Channel, packet_at}
use dpdk_udp_receiver.Assemble.{
  Loop, running, waiting, syncing, round, poll, handle, discard, Consumer, count_packet,
}
use dpdk_udp_receiver.Pipeline.Consumes.{frame_seq-packet_at}
use dpdk_udp_receiver.Accesses.{
  Point, away, asks, Taking, Aligning, Sending, take_packet, warm_up, access_at,
}
use dpdk_udp_receiver.Accesses.Spread.{IsOrdered}

abbrev pub at : Point → Packet → Consumer → Taking
at l p k = record { place = l; packet = p; locals = k }

module _ (d : Dpdk) (strict : Bool) (n : ℕ) (a : Aligning) (g : Sending) where
  abbrev pub Good : Channel d × Taking → Type 0
  Good s = IsOrdered d strict n s.0 s.1.place s.1.packet s.1.locals a g

  -- An access that ends in the state `u` ends in a good state if `u` is good.
  pub arrive :
      {r : Result (Channel d × Taking)} (u s : Channel d × Taking)
      → r ≡ ok s
      → r ≡ ok u
      → Good u
      → Good s
  arrive u s e reached good = subst Good (ok-injective (sym reached ∙ e)) good

abbrev pub looping : ℕ → Option ℕ → Loop → Consumer
looping q tmp l = record { loop = l; packet_seq = q; tmp_frame = tmp }

module _ (cfg : Config) (d : Dpdk) (c : Channel d) (p : Packet) (q : ℕ) (tmp : Option ℕ) where
  -- Taking a packet ends well in each loop.
  pub away-ends :
      (l : Point) (m : Loop)
      → (s : Channel d × Taking) × (access_at cfg d away (c, at l p (looping q tmp m)) ≡ ok s)
  unfolding access_at take_packet warm_up round poll handle
  away-ends l running = goes _ (λ e. ground arith) (λ e. ground arith)
  away-ends l waiting = goes _ (λ e. ground arith) (λ e. ground arith)
  away-ends l syncing = goes _ (λ e. ground arith) (λ e. ground arith)

module _ (cfg : Config) (d : Dpdk) (strict : Bool) (n : ℕ) (a : Aligning) (g : Sending)
    (c : Channel d) (p : Packet) where
  module _ (k : Consumer) where
    take_packet-ordered :
        (s : Channel d × Taking)
        → IsOrdered d strict n c away p k a g
        → take_packet cfg d (c, at away p k) ≡ ok s
        → Good d strict n a g s
    unfolding take_packet count_packet
    take_packet-ordered s h e = elim (Option-cases (d.dequeue c.ring1_2)) [
      | inl empty ↦ arrive d strict n a g (c, at away p k) s e (rw (empty, take_packet) refl) h
      | inr ((o, rest), got) ↦
          arrive d strict n a g
            (
              (count_packet cfg d (packet_at (c.messages o)) o rest (c, k)).0,
              at asks (packet_at (c.messages o))
                  (count_packet cfg d (packet_at (c.messages o)) o rest (c, k)).1,
            )
            s e (rw (got, take_packet) refl)
            (record {
              tidy = h.tidy;
              knows = frame_seq-packet_at (c.messages o) (h.bytes o);
              patient = h.patient;
              counted = h.counted;
              room_announced = h.room_announced;
              room_passed = h.room_passed;
              bytes = h.bytes;
            })
    ]

  module _ (q : ℕ) (tmp : Option ℕ) where
    -- What the first loops do to the channel.
    passed-ordered :
        (l next : Loop) (r : d.Ring) (m : d.Pool)
        → IsOrdered d strict n c away p (looping q tmp l) a g
        → Good d strict n a g
            (record c { ring1_2 = r; send_pool = m }, at away p (looping q tmp next))
    passed-ordered l next r m h = record {
      tidy = h.tidy;
      knows = tt;
      patient = h.patient;
      counted = h.counted;
      room_announced = h.room_announced;
      room_passed = h.room_passed;
      bytes = h.bytes;
    }

    warm_up-ordered :
        (l : Loop) (s : Channel d × Taking)
        → l ≢ running
        → IsOrdered d strict n c away p (looping q tmp l) a g
        → warm_up cfg d (c, at away p (looping q tmp l)) ≡ ok s
        → Good d strict n a g s
    unfolding warm_up round poll handle discard
    warm_up-ordered running s f h e = absurd (f refl)
    warm_up-ordered waiting s f h e = elim (Bool-cases c.assem_init) [
      | inl y ↦
          arrive d strict n a g (c, at away p (looping q tmp syncing)) s e (rw (y, warm_up) refl)
            (passed-ordered waiting syncing c.ring1_2 c.send_pool h)
      | inr y ↦ elim (Option-cases (d.dequeue c.ring1_2)) [
        | inl empty ↦
            arrive d strict n a g (c, at away p (looping q tmp waiting)) s e
              (ground (arith, y, empty)) h
        | inr ((o, rest), got) ↦
            arrive d strict n a g (_, at away p (looping q tmp waiting)) s e
              (ground (arith, y, got)) (passed-ordered waiting waiting rest (d.put o c.send_pool) h)
      ]
    ]
    warm_up-ordered syncing s f h e = elim (Option-cases (d.dequeue c.ring1_2)) [
      | inl empty ↦
          arrive d strict n a g (c, at away p (looping q tmp syncing)) s e (ground (arith, empty)) h
      | inr ((o, rest), got) ↦
          let next = if (packet_at (c.messages o)).packet_seq == 43 then running else syncing in
          arrive d strict n a g (_, at away p (looping q tmp next)) s e (ground (arith, got))
            (passed-ordered syncing next rest (d.put o c.send_pool) h)
    ]

    pub away-ordered :
        (l : Loop) (s : Channel d × Taking)
        → IsOrdered d strict n c away p (looping q tmp l) a g
        → access_at cfg d away (c, at away p (looping q tmp l)) ≡ ok s
        → Good d strict n a g s
    unfolding access_at
    away-ordered running s h e = take_packet-ordered (looping q tmp running) s h e
    away-ordered waiting s h e = warm_up-ordered waiting s (λ q. cc) h e
    away-ordered syncing s h e = warm_up-ordered syncing s (λ q. cc) h e
