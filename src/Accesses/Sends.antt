-- ===== src/Accesses/Sends.antt =====
-- An access of the send thread keeps the frames in order.
use dpdk_udp_receiver.Common.{
  ℕ, Bool, ◌≡◌, ◌≢◌, refl, ap, arith, subst, sym, ◌∙◌, false, none, some, Option-cases, inl, inr,
  ok, ok-injective, Result, update, memset, ==_iff,
}
use dpdk_udp_receiver.Dpdk.{Dpdk, Lawful}
use dpdk_udp_receiver.Dpdk.Laws.{times-put, length-put, times-dequeue, length-dequeue}
use dpdk_udp_receiver.Channel.{Config, Packet, Frame, Channel, pack_num}
use dpdk_udp_receiver.Assemble.{Consumer, up}
use dpdk_udp_receiver.Send.{Sender}
use dpdk_udp_receiver.Accesses.{
  Point, away, asks, gets, opens, announces, fills, adds, Aligning, Sending, idles, builds, empties,
  clears, puts, build, empty_frame, send_access,
}
use dpdk_udp_receiver.Accesses.Tidy.{shift-IsTidy, write-IsTidy, unlink-IsTidy}
use dpdk_udp_receiver.Accesses.Spread.{held, waiting, Knows, IsOrdered}

module _ (cfg : Config) (d : Dpdk) (laws : Lawful d) (strict : Bool) (n : ℕ) (c : Channel d)
    (l : Point) (p : Packet) (k : Consumer) (a : Aligning) where
  abbrev Good : Channel d × Sending × Sender → Type 0
  Good s = IsOrdered d strict n s.0 l p k a s.1

  arrive :
      {r : Result (Channel d × Sending × Sender)} (u t : Channel d × Sending × Sender)
      → r ≡ ok t
      → r ≡ ok u
      → Good u
      → Good t
  arrive u t e reached good = subst Good (ok-injective (sym reached ∙ e)) good

  idle-ordered :
      (s : Sender) (t : Channel d × Sending × Sender)
      → IsOrdered d strict n c l p k a idles
      → send_access cfg d (c, idles, s) ≡ ok t
      → Good t
  unfolding send_access
  idle-ordered s t h e = elim (Option-cases (d.dequeue c.ring3_4)) [
    | inl empty ↦ arrive (c, idles, s) t e (rw (empty, send_access) refl) h
    | inr ((f, rest), got) ↦
        let moved = λ (o : ℕ). times-dequeue d laws o f c.ring3_4 rest got in
        arrive (record c { ring3_4 = rest }, builds f, s) t e (rw (got, send_access) refl)
          (record {
            tidy =
                shift-IsTidy strict c.index c.frames _ _ h.tidy (λ o. omega (arith, moved o))
                  (λ o. omega (arith, moved o))
                  (λ q o full. h.tidy.filled q o (omega (arith, moved o)))
                  (λ o. omega (arith, moved o));
            knows = h.knows;
            patient = h.patient;
            counted = omega (arith, h.counted, length-dequeue d laws f c.ring3_4 rest got);
            room_announced = h.room_announced;
            room_passed = rw (laws.dequeue_some f c.ring3_4 rest got).1 h.room_passed;
            bytes = h.bytes;
          })
  ]

  build-ordered :
      (f : ℕ) (s : Sender) (t : Channel d × Sending × Sender)
      → IsOrdered d strict n c l p k a (builds f)
      → send_access cfg d (c, builds f, s) ≡ ok t
      → Good t
  unfolding send_access
  build-ordered f s t h e =
      arrive (c, empties f, build cfg d f c s) t e refl
        (record {
          tidy = h.tidy;
          knows = h.knows;
          patient = h.patient;
          counted = h.counted;
          room_announced = h.room_announced;
          room_passed = h.room_passed;
          bytes = h.bytes;
        })

  -- A write to a frame that no longer waits is none that the consumer relies on.
  Knows-empty_frame :
      (m : Point) (f : ℕ) (v : Frame)
      → waiting d c.ring2_3 a f ≡ 0
      → Knows d strict m p k.tmp_frame c.index c.frames c.ring2_3 a
      → Knows d strict m p k.tmp_frame c.index (update c.frames f v) c.ring2_3 a
  Knows-empty_frame away f v gone h = h
  Knows-empty_frame asks f v gone h = h
  Knows-empty_frame gets f v gone h = h
  Knows-empty_frame opens f v gone h = h
  Knows-empty_frame announces f v gone h = h
  Knows-empty_frame fills f v gone (valid, known) =
      (valid, λ q. let (o, has, waits, short) = known q in (o, has, waits, ground arith))
  Knows-empty_frame adds f v gone (valid, known) =
      (valid, λ q. let (o, has, waits, short) = known q in (o, has, waits, ground arith))

  empty-ordered :
      (f : ℕ) (s : Sender) (t : Channel d × Sending × Sender)
      → IsOrdered d strict n c l p k a (empties f)
      → send_access cfg d (c, empties f, s) ≡ ok t
      → Good t
  unfolding send_access empty_frame
  empty-ordered f s t h e =
      let v : Frame = record (c.frames f) {
        count = 0;
        flags = memset (c.frames f).flags 0 false pack_num;
      } in
      let single = h.tidy.once f in
      arrive (record c { frames = update c.frames f v }, clears f, s) t e refl
        (record {
          tidy =
              write-IsTidy strict c.index c.frames _ _ h.tidy f v refl refl (λ o. omega arith)
                (λ o. omega arith) (λ q o. omega arith) (λ q. ground arith)
                (λ o other. ground arith)
                (λ q is. record { no_packets = refl; no_flags = λ i lt. ground arith });
          knows = Knows-empty_frame l f v (ground arith) h.knows;
          patient = h.patient;
          counted = omega (arith, h.counted);
          room_announced = h.room_announced;
          room_passed = h.room_passed;
          bytes = h.bytes;
        })

  -- The consumer does not rely on a slot whose frame no longer waits.
  Knows-update :
      (m : Point) (f s : ℕ)
      → c.index s ≡ some f
      → waiting d c.ring2_3 a f ≡ 0
      → ((o : ℕ) → m ≡ announces → k.tmp_frame ≡ some o → f ≢ o)
      → Knows d strict m p k.tmp_frame c.index c.frames c.ring2_3 a
      → Knows d strict m p k.tmp_frame (update c.index s none) c.frames c.ring2_3 a
  Knows-update away f s at gone new h = h
  Knows-update asks f s at gone new h = h
  Knows-update gets f s at gone new h = (ground (arith, h.0), h.1, h.2)
  Knows-update opens f s at gone new (o, is, free, small, valid) =
      (o, is, ground arith, small, valid)
  Knows-update announces f s at gone new (o, is, has) =
      (o, is, let other = new o refl is in ground arith)
  Knows-update fills f s at gone new (valid, known) =
      (valid, λ q. let (o, has, waits, short) = known q in (o, ground arith, waits, short))
  Knows-update adds f s at gone new (valid, known) =
      (valid, λ q. let (o, has, waits, short) = known q in (o, ground arith, waits, short))

  clear-ordered :
      (f : ℕ) (s : Sender) (t : Channel d × Sending × Sender)
      → IsOrdered d strict n c l p k a (clears f)
      → send_access cfg d (c, clears f, s) ≡ ok t
      → Good t
  unfolding send_access
  clear-ordered f s t h e =
      let single = h.tidy.once f in
      let known = h.tidy.found f (ground arith) in
      arrive (record c { index = update c.index (c.frames f).frame_seq none }, puts f, s) t e
        (ground (arith, known.1.small))
        (record {
          tidy =
              unlink-IsTidy strict c.index c.frames _ _ h.tidy f (ground arith) (ground arith)
                (λ o. omega arith) (λ o other. ground (arith, ==_iff f o)) (λ o. omega arith)
                (λ o. omega arith);
          knows =
              Knows-update l f (c.frames f).frame_seq known.0 (ground arith)
                (λ o at is same. ground (arith, ap (held o) is)) h.knows;
          patient = h.patient;
          counted = omega (arith, h.counted);
          room_announced = h.room_announced;
          room_passed = h.room_passed;
          bytes = h.bytes;
        })

  put-ordered :
      (f : ℕ) (s : Sender) (t : Channel d × Sending × Sender)
      → IsOrdered d strict n c l p k a (puts f)
      → send_access cfg d (c, puts f, s) ≡ ok t
      → Good t
  unfolding send_access
  put-ordered f s t h e =
      let moved = λ (o : ℕ). times-put d laws o f c.frame_pool in
      arrive
        (record c { frame_pool = d.put f c.frame_pool; sent_frame = up c.sent_frame }, idles, s) t e
        refl
        (record {
          tidy =
              shift-IsTidy strict c.index c.frames _ _ h.tidy (λ o. omega (arith, moved o))
                (λ o. omega arith) h.tidy.filled (λ o. omega (arith, moved o));
          knows = h.knows;
          patient = h.patient;
          counted = omega (arith, h.counted, length-put d laws f c.frame_pool);
          room_announced = h.room_announced;
          room_passed = h.room_passed;
          bytes = h.bytes;
        })

  pub send_access-ordered :
      (g : Sending) (s : Sender) (t : Channel d × Sending × Sender)
      → IsOrdered d strict n c l p k a g
      → send_access cfg d (c, g, s) ≡ ok t
      → Good t
  send_access-ordered idles s t h e = idle-ordered s t h e
  send_access-ordered (builds f) s t h e = build-ordered f s t h e
  send_access-ordered (empties f) s t h e = empty-ordered f s t h e
  send_access-ordered (clears f) s t h e = clear-ordered f s t h e
  send_access-ordered (puts f) s t h e = put-ordered f s t h e
