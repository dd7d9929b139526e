-- ===== src/Accesses/Aligns.antt =====
-- An access of the align thread keeps the frames in order.
use dpdk_udp_receiver.Common.{
  ℕ, Bool, true, update, ◌&&◌, refl, zero, suc, ◌+◌, ◌∙◌, ◌<◌, ◌≤◌, ◌≡◌, arith, Bool-cases, false,
  Option, Option-cases, inl, inr, length, ltb,
}
use dpdk_udp_receiver.Dpdk.{Dpdk, Lawful}
use dpdk_udp_receiver.Dpdk.Laws.{times-enqueue, length-enqueue, times-dequeue, length-dequeue}
use dpdk_udp_receiver.Channel.{Config, Packet, Frame, Channel, pack_num}
use dpdk_udp_receiver.Assemble.{Consumer}
use dpdk_udp_receiver.Align.{Wait, pass_on, timed_out, drop_frame, zero_rows}
use dpdk_udp_receiver.Pipeline.Aligns.{frame_seq-zero_rows}
use dpdk_udp_receiver.Accesses.{
  Point, away, asks, gets, opens, announces, fills, adds, Aligning, seeks, tests, cleans, passes,
  Sending, align_access,
}
use dpdk_udp_receiver.Accesses.Tidy.{shift-IsTidy, write-IsTidy}
use dpdk_udp_receiver.Accesses.Spread.{waiting, Knows, IsOrdered}

packet_num-zero_rows : (n i : ℕ) (f : Frame) → (zero_rows n i f).packet_num ≡ f.packet_num
unfolding zero_rows
packet_num-zero_rows zero i f = refl
packet_num-zero_rows (suc n) i f = packet_num-zero_rows n (i + 1) _ ∙ ground arith

module _ (d : Dpdk) (laws : Lawful d) (strict : Bool) (n : ℕ) (l : Point) (p : Packet)
    (k : Consumer) (g : Sending) where
  -- What the consumer knows stays true where frames that still lack packets go on waiting.
  Knows-align_access :
      (m : Point) (tmp : Option ℕ) (index : ℕ → Option ℕ) (frames : ℕ → Frame) (r s : d.Ring)
      (a b : Aligning)
      → (strict ≡ true
          → (f : ℕ) → (frames f).count < pack_num
          → 0 < waiting d r a f
          → 0 < waiting d s b f)
      → Knows d strict m p tmp index frames r a
      → Knows d strict m p tmp index frames s b
  Knows-align_access away tmp index frames r s a b on h = h
  Knows-align_access asks tmp index frames r s a b on h = h
  Knows-align_access gets tmp index frames r s a b on h = h
  Knows-align_access opens tmp index frames r s a b on h = h
  Knows-align_access announces tmp index frames r s a b on h = h
  Knows-align_access fills tmp index frames r s a b on (valid, known) =
      (valid, λ q. let (f, has, waits, short) = known q in (f, has, on q f short waits, short))
  Knows-align_access adds tmp index frames r s a b on (valid, known) =
      (valid, λ q. let (f, has, waits, short) = known q in (f, has, on q f short waits, short))

  abbrev Good : Channel d × Aligning → Type 0
  Good s = IsOrdered d strict n s.0 l p k s.1 g

  seek-ordered :
      (cfg : Config) (tsc : ℕ) (c : Channel d)
      → IsOrdered d strict n c l p k seeks g
      → Good (align_access cfg d tsc (c, seeks))
  unfolding align_access
  seek-ordered cfg tsc c h = elim (Option-cases (d.dequeue c.ring2_3)) [
    | inl empty ↦ rw (empty, align_access) h
    | inr ((f, rest), got) ↦
        let moved = λ (o : ℕ). times-dequeue d laws o f c.ring2_3 rest got in
        rw (got, align_access)
          (record {
            tidy =
                shift-IsTidy strict c.index c.frames _ _ h.tidy (λ o. omega (arith, moved o))
                  (λ o. omega (arith, moved o)) h.tidy.filled (λ o. omega (arith, moved o));
            knows =
                Knows-align_access l k.tmp_frame c.index c.frames c.ring2_3 rest seeks
                  (tests (record { frame = f; prev_tsc = tsc }))
                  (λ q o short waits. omega (arith, moved o)) h.knows;
            patient = λ q. tt;
            counted = omega (arith, h.counted, length-dequeue d laws f c.ring2_3 rest got);
            room_announced = rw (laws.dequeue_some f c.ring2_3 rest got).1 h.room_announced;
            room_passed = h.room_passed;
            bytes = h.bytes;
          })
  ]

  test-ordered :
      (cfg : Config) (tsc : ℕ) (c : Channel d) (w : Wait)
      → (strict ≡ true → cfg.drop ≡ false)
      → IsOrdered d strict n c l p k (tests w) g
      → Good (align_access cfg d tsc (c, tests w))
  unfolding align_access
  test-ordered cfg tsc c w never h =
      elim (Bool-cases (ltb (c.frames w.frame).count (c.frames w.frame).packet_num)) [
        | inl short ↦ elim (Bool-cases (cfg.drop && timed_out w.prev_tsc tsc)) [
          | inl late ↦
              rw (short, align_access)
                (rw (late, align_access)
                  (record {
                    tidy = h.tidy;
                    knows =
                        Knows-align_access l k.tmp_frame c.index c.frames c.ring2_3 c.ring2_3
                          (tests w) (cleans w.frame) (λ q o few waits. waits) h.knows;
                    patient = λ q. ground (arith, never q);
                    counted = h.counted;
                    room_announced = h.room_announced;
                    room_passed = h.room_passed;
                    bytes = h.bytes;
                  }))
          | inr early ↦ rw (short, align_access) (rw (early, align_access) h)
        ]
        | inr done ↦
            let known = h.tidy.found w.frame (ground arith) in
            let enough : pack_num ≤ (c.frames w.frame).count = ground (arith, known.1.full_size) in
            rw (done, align_access)
              (record {
                tidy =
                    shift-IsTidy strict c.index c.frames _ _ h.tidy (λ o. omega arith)
                      (λ o. omega arith) (λ q o full. ground (arith, h.tidy.filled q o))
                      (λ o. omega arith);
                knows =
                    Knows-align_access l k.tmp_frame c.index c.frames c.ring2_3 c.ring2_3 (tests w)
                      (passes w.frame) (λ q o short waits. ground arith) h.knows;
                patient = λ q. tt;
                counted = omega (arith, h.counted);
                room_announced = h.room_announced;
                room_passed = h.room_passed;
                bytes = h.bytes;
              })
      ]

  pass-ordered :
      (cfg : Config) (tsc : ℕ) (c : Channel d) (f : ℕ)
      → IsOrdered d strict n c l p k (passes f) g
      → Good (align_access cfg d tsc (c, passes f))
  unfolding align_access pass_on
  pass-ordered cfg tsc c f h =
      let room : length (d.objects c.ring3_4) < d.capacity c.ring3_4 =
        omega (arith, h.counted, h.room_passed) in
      let moved = λ (o : ℕ). times-enqueue d laws o f c.ring3_4 room in
      record {
        tidy =
            shift-IsTidy strict c.index c.frames _ _ h.tidy (λ o. omega (arith, moved o))
              (λ o. omega (arith, moved o)) (λ q o full. h.tidy.filled q o (omega (arith, moved o)))
              (λ o. omega (arith, moved o));
        knows =
            Knows-align_access l k.tmp_frame c.index c.frames c.ring2_3 c.ring2_3 (passes f) seeks
              (λ q o short waits. waits) h.knows;
        patient = λ q. tt;
        counted = omega (arith, h.counted, length-enqueue d laws f c.ring3_4 room);
        room_announced = h.room_announced;
        room_passed = rw (laws.capacity_enqueue f c.ring3_4) h.room_passed;
        bytes = h.bytes;
      }

  -- Where frames are given up, the consumer may rely on less.
  Knows-drop_frame :
      (m : Point) (tmp : Option ℕ) (index : ℕ → Option ℕ) (frames gs : ℕ → Frame) (r : d.Ring)
      (a b : Aligning)
      → ¬ (strict ≡ true)
      → Knows d strict m p tmp index frames r a
      → Knows d strict m p tmp index gs r b
  Knows-drop_frame away tmp index frames gs r a b lax h = h
  Knows-drop_frame asks tmp index frames gs r a b lax h = h
  Knows-drop_frame gets tmp index frames gs r a b lax h = h
  Knows-drop_frame opens tmp index frames gs r a b lax h = h
  Knows-drop_frame announces tmp index frames gs r a b lax h = h
  Knows-drop_frame fills tmp index frames gs r a b lax h = (h.0, λ q. absurd (lax q))
  Knows-drop_frame adds tmp index frames gs r a b lax h = (h.0, λ q. absurd (lax q))

  clean-ordered :
      (cfg : Config) (tsc : ℕ) (c : Channel d) (f : ℕ)
      → IsOrdered d strict n c l p k (cleans f) g
      → Good (align_access cfg d tsc (c, cleans f))
  unfolding align_access drop_frame
  clean-ordered cfg tsc c f h =
      let v : Frame = zero_rows pack_num 0 (c.frames f) in
      record {
        tidy =
            write-IsTidy strict c.index c.frames _ _ h.tidy f v
              (frame_seq-zero_rows pack_num 0 (c.frames f))
              (packet_num-zero_rows pack_num 0 (c.frames f)) (λ o. omega arith) (λ o. omega arith)
              (λ q. absurd (h.patient q)) (λ q. absurd (h.patient q)) (λ o other. omega arith)
              (λ q. absurd (h.patient q));
        knows =
            Knows-drop_frame l k.tmp_frame c.index c.frames (update c.frames f v) c.ring2_3
              (cleans f) (passes f) h.patient h.knows;
        patient = λ q. tt;
        counted = omega (arith, h.counted);
        room_announced = h.room_announced;
        room_passed = h.room_passed;
        bytes = h.bytes;
      }

  pub align_access-ordered :
      (cfg : Config) (tsc : ℕ) (c : Channel d) (a : Aligning)
      → (strict ≡ true → cfg.drop ≡ false)
      → IsOrdered d strict n c l p k a g
      → Good (align_access cfg d tsc (c, a))
  align_access-ordered cfg tsc c seeks never h = seek-ordered cfg tsc c h
  align_access-ordered cfg tsc c (tests w) never h = test-ordered cfg tsc c w never h
  align_access-ordered cfg tsc c (cleans f) never h = clean-ordered cfg tsc c f h
  align_access-ordered cfg tsc c (passes f) never h = pass-ordered cfg tsc c f h
