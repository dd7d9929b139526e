-- ===== src/Accesses/Consumes.antt =====
-- An access of the consumer keeps the frames in order.
use dpdk_udp_receiver.Common.{
  ℕ, Bool, ◌<◌, ◌≡◌, ◌≢◌, refl, ap, arith, none, some, ok, Option-cases, inl, inr, length, update,
  update_self, true, if◌then◌else◌, ==_iff,
}
use dpdk_udp_receiver.Dpdk.{Dpdk, Lawful}
use dpdk_udp_receiver.Dpdk.Laws.{times-enqueue, length-enqueue, times-get, length-get}
use dpdk_udp_receiver.Channel.{Config, Packet, Frame, Channel, pack_num}
use dpdk_udp_receiver.Assemble.{Consumer, up, copy_packet, take_frame}
use dpdk_udp_receiver.Assemble.Copy.{IsValid, copied, copy_packet-valid}
use dpdk_udp_receiver.Accesses.{
  Point, away, asks, gets, opens, announces, fills, adds, Taking, Aligning, Sending, new_frame,
  get_frame, open_new, announce, ask, add_one, access_at,
}
use dpdk_udp_receiver.Accesses.Takes.{Good, arrive, at, away-ordered}
use dpdk_udp_receiver.Accesses.Tidy.{IsTidy, shift-IsTidy, write-IsTidy, open-IsTidy}
use dpdk_udp_receiver.Accesses.Spread.{held, size, waiting, tally, IsOrdered}
use dpdk_udp_receiver.Accesses.Slots.{through-some, through-none, at_slot}

module _ (cfg : Config) (d : Dpdk) (strict : Bool) (n : ℕ) where
  -- The frame as the packet that opened it leaves it.
  abbrev opened_as : Packet → Frame → Frame
  opened_as p g = record (copied p (record g { count = up g.count })) {
    packet_num = pack_num;
    frame_seq = p.frame_seq;
    flags = if cfg.drop then update g.flags p.packet_seq true else g.flags;
  }

  -- What the consumer's surroundings promise where it stands: a packet is valid, and the pool is not
  -- empty when it is asked; where it is `strict`, the frame of a packet has not yet all of its packets
  -- and has not gone on.
  abbrev pub Expects : Point → Packet → Channel d → Aligning → Type 0
  Expects away p c a = Unit {0}
  Expects asks p c a =
      IsValid p
      × (strict ≡ true
          → (f : ℕ) → c.index p.frame_seq ≡ some f
          → (0 < waiting d c.ring2_3 a f) × ((c.frames f).count < pack_num))
  Expects gets p c a = d.get c.frame_pool ≢ none
  Expects opens p c a = Unit {0}
  Expects announces p c a = Unit {0}
  Expects fills p c a = Unit {0}
  Expects adds p c a = Unit {0}

  module _ (a : Aligning) (g : Sending) where
    module _ (c : Channel d) (p : Packet) (k : Consumer) where
      ask-ordered :
          (s : Channel d × Taking)
          → IsOrdered d strict n c asks p k a g
          → Expects asks p c a
          → ask cfg d (c, at asks p k) ≡ ok s
          → Good d strict n a g s
      unfolding ask
      ask-ordered s h x e = elim (Option-cases (c.index p.frame_seq)) [
        | inl none_yet ↦
            arrive d strict n a g (c, at gets p k) s e (rw (none_yet, ask) refl)
              (record {
                tidy = h.tidy;
                knows = (none_yet, h.knows, x.0);
                patient = h.patient;
                counted = h.counted;
                room_announced = h.room_announced;
                room_passed = h.room_passed;
                bytes = h.bytes;
              })
        | inr (f, has) ↦
            arrive d strict n a g (c, at fills p k) s e (rw (has, ask) refl)
              (record {
                tidy = h.tidy;
                knows = (x.0, λ q. (f, has, (x.1 q f has).0, (x.1 q f has).1));
                patient = h.patient;
                counted = h.counted;
                room_announced = h.room_announced;
                room_passed = h.room_passed;
                bytes = h.bytes;
              })
      ]

      -- A write to the frame of a packet, by a consumer that has no new frame.
      written :
          (f : ℕ) (v : Frame)
          → IsTidy strict c.index c.frames
              (tally d c.frame_pool c.ring2_3 c.ring3_4 fills k.tmp_frame a g)
          → v.frame_seq ≡ (c.frames f).frame_seq
          → v.packet_num ≡ (c.frames f).packet_num
          → (strict ≡ true → (0 < waiting d c.ring2_3 a f) × ((c.frames f).count < pack_num))
          → IsTidy strict c.index
              (update c.frames f v)
              (tally d c.frame_pool c.ring2_3 c.ring3_4 fills k.tmp_frame a g)
      written f v h named sized known =
          write-IsTidy strict c.index c.frames _ _ h f v named sized (λ o. omega arith) (λ o. refl)
            (λ q o. omega arith) (λ q. omega (arith, h.once f, (known q).0))
            (λ o other. omega arith) (λ q free. absurd (omega (arith, h.once f, (known q).0, free)))

      fill-ordered :
          (s : Channel d × Taking)
          → IsOrdered d strict n c fills p k a g
          → access_at cfg d fills (c, at fills p k) ≡ ok s
          → Good d strict n a g s
      unfolding access_at
      fill-ordered s h e = elim (Option-cases (c.index p.frame_seq)) [
        | inl empty ↦ absurd (ground (arith, e, through-none d c p.frame_seq (copy_packet p) empty))
        | inr (f, has) ↦
            let known = λ (q : strict ≡ true).
              at_slot c.index c.frames p.frame_seq f (waiting d c.ring2_3 a) has (h.knows.1 q) in
            arrive d strict n a g
              (record c { frames = update c.frames f (copied p (c.frames f)) }, at adds p k) s e
              (rw
                (through-some d c p.frame_seq f (copy_packet p) _ has
                  (copy_packet-valid p (c.frames f) h.knows.0))
                refl)
              (record {
                tidy = written f (copied p (c.frames f)) h.tidy refl refl known;
                knows = (h.knows.0, λ q. (f, has, (known q).0, ground (arith, (known q).1)));
                patient = h.patient;
                counted = h.counted;
                room_announced = h.room_announced;
                room_passed = h.room_passed;
                bytes = h.bytes;
              })
      ]

      add-ordered :
          (s : Channel d × Taking)
          → IsOrdered d strict n c adds p k a g
          → access_at cfg d adds (c, at adds p k) ≡ ok s
          → Good d strict n a g s
      unfolding access_at add_one
      add-ordered s h e = elim (Option-cases (c.index p.frame_seq)) [
        | inl empty ↦ absurd (ground (arith, e, through-none d c p.frame_seq add_one empty))
        | inr (f, has) ↦
            let v : Frame = record (c.frames f) { count = up (c.frames f).count } in
            let known = λ (q : strict ≡ true).
              at_slot c.index c.frames p.frame_seq f (waiting d c.ring2_3 a) has (h.knows.1 q) in
            arrive d strict n a g (record c { frames = update c.frames f v }, at away p k) s e
              (rw (through-some d c p.frame_seq f add_one v has refl) refl)
              (record {
                tidy = written f v h.tidy refl refl known;
                knows = tt;
                patient = h.patient;
                counted = h.counted;
                room_announced = h.room_announced;
                room_passed = h.room_passed;
                bytes = h.bytes;
              })
      ]

      module _ (laws : Lawful d) where
        get_frame-ordered :
            (s : Channel d × Taking)
            → IsOrdered d strict n c gets p k a g
            → Expects gets p c a
            → get_frame cfg d (c, at gets p k) ≡ ok s
            → Good d strict n a g s
        unfolding get_frame take_frame
        get_frame-ordered s h x e = elim (Option-cases (d.get c.frame_pool)) [
          | inl empty ↦ absurd (x empty)
          | inr ((f, m), got) ↦
              arrive d strict n a g
                (record c { frame_pool = m }, at opens p (record k { tmp_frame = some f })) s e
                (ground (arith, got))
                (record {
                  tidy =
                      shift-IsTidy strict c.index c.frames _ _ h.tidy
                        (λ o. omega (arith, times-get d laws o f c.frame_pool m got)) (λ o. refl)
                        h.tidy.filled (λ o. omega (arith, times-get d laws o f c.frame_pool m got));
                  knows = (f, refl, h.knows.0, h.knows.1, h.knows.2);
                  patient = h.patient;
                  counted = omega (arith, h.counted, length-get d laws f c.frame_pool m got);
                  room_announced = h.room_announced;
                  room_passed = h.room_passed;
                  bytes = h.bytes;
                })
        ]

        open_new-ordered :
            (s : Channel d × Taking)
            → IsOrdered d strict n c opens p k a g
            → open_new cfg d (c, at opens p k) ≡ ok s
            → Good d strict n a g s
        unfolding open_new new_frame
        open_new-ordered s h e =
            let (f, is, free, small, valid) = h.knows in
            let alone = ap (held f) is in
            let v : Frame = opened_as p (c.frames f) in
            arrive d strict n a g
              (
                record c {
                  index = update c.index p.frame_seq (some f);
                  frames = update c.frames f v;
                },
                at announces p k,
              )
              s e
              (ground (
                arith,
                is,
                copy_packet-valid p (record (c.frames f) { count = up (c.frames f).count }) valid,
              ))
              (record {
                tidy =
                    open-IsTidy strict c.index c.frames _ _ h.tidy p.frame_seq f v free refl
                      (record { full_size = refl; small = small })
                      (ground (arith, h.tidy.once f, alone)) (ground (arith, h.tidy.once f, alone))
                      (ground (arith, h.tidy.once f, alone)) (ground (arith, h.tidy.once f, alone))
                      (λ o. omega arith) (λ o other. ground (arith, ap (held o) is, ==_iff f o))
                      (λ o other. omega arith) (λ o other. omega arith);
                knows = (f, is, update_self c.index p.frame_seq (some f));
                patient = h.patient;
                counted = omega (arith, h.counted);
                room_announced = h.room_announced;
                room_passed = h.room_passed;
                bytes = h.bytes;
              })

        announce-ordered :
            (s : Channel d × Taking)
            → IsOrdered d strict n c announces p k a g
            → announce cfg d (c, at announces p k) ≡ ok s
            → Good d strict n a g s
        unfolding announce
        announce-ordered s h e =
            let (f, is, has) = h.knows in
            let room : length (d.objects c.ring2_3) < d.capacity c.ring2_3 =
              omega (arith, h.counted, h.room_announced, ap size is) in
            arrive d strict n a g (record c { ring2_3 = (d.enqueue f c.ring2_3).1 }, at away p k) s
              e (rw (has, announce) refl)
              (record {
                tidy =
                    shift-IsTidy strict c.index c.frames _ _ h.tidy
                      (λ o. omega (arith, ap (held o) is, times-enqueue d laws o f c.ring2_3 room))
                      (λ o. omega (arith, ap (held o) is, times-enqueue d laws o f c.ring2_3 room))
                      h.tidy.filled (λ o. omega arith);
                knows = tt;
                patient = h.patient;
                counted =
                    omega (arith, ap size is, h.counted, length-enqueue d laws f c.ring2_3 room);
                room_announced = rw (laws.capacity_enqueue f c.ring2_3) h.room_announced;
                room_passed = h.room_passed;
                bytes = h.bytes;
              })

        -- Where the consumer's surroundings keep their promises, its next access keeps the order.
        pub access_at-ordered :
            (l : Point) (s : Channel d × Taking)
            → IsOrdered d strict n c l p k a g
            → Expects l p c a
            → access_at cfg d l (c, at l p k) ≡ ok s
            → Good d strict n a g s
        unfolding access_at
        access_at-ordered away s h x e =
            away-ordered cfg d strict n a g c p k.packet_seq k.tmp_frame k.loop s h e
        access_at-ordered asks s h x e = ask-ordered s h x e
        access_at-ordered gets s h x e = get_frame-ordered s h x e
        access_at-ordered opens s h x e = open_new-ordered s h e
        access_at-ordered announces s h x e = announce-ordered s h e
        access_at-ordered fills s h x e = fill-ordered s h e
        access_at-ordered adds s h x e = add-ordered s h e
