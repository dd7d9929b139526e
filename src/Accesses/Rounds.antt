-- ===== src/Accesses/Rounds.antt =====
-- Threads that nobody interrupts: their accesses, one after the other, are the rounds of
-- `Assemble`, `Align` and `Send`.
use dpdk_udp_receiver.Common.{
  ℕ, zero, suc, ◌≡◌, ◌∙◌, refl, ap, arith, Bool-cases, Option, Option-cases, none, some, inl, inr,
  Result, ok, fault, ◌>>=◌, ltb, update, update_self, false, memset, if◌then◌else◌,
}
use dpdk_udp_receiver.Dpdk.{Dpdk}
use dpdk_udp_receiver.Channel.{Config, Packet, Frame, Channel, pack_num, index_size}
use dpdk_udp_receiver.Assemble.{Consumer, up, assemble}
use dpdk_udp_receiver.Align.{Wait, check, align}
use dpdk_udp_receiver.Send.{Sender, give_back, send_frame, send}
use dpdk_udp_receiver.Accesses.{
  asks, Aligning, seeks, tests, cleans, passes, Sending, idles, builds, empties, clears, puts,
  align_access, build, empty_frame, send_access,
}
use dpdk_udp_receiver.Accesses.Whole.{consumer_alone, at, done, consumer_alone-assemble}

-- The place of the align thread between two rounds.
abbrev before : Option Wait → Aligning
before none = seeks
before (some w) = tests w

module _ (cfg : Config) (d : Dpdk) where
  -- The accesses of the align thread that follow the end of a wait.
  unfoldable pub finish_align : ℕ → Channel d × Aligning → Channel d × Aligning
  finish_align tsc (c, seeks) = (c, seeks)
  finish_align tsc (c, tests w) = (c, tests w)
  finish_align tsc (c, cleans f) = align_access cfg d tsc (align_access cfg d tsc (c, cleans f))
  finish_align tsc (c, passes f) = align_access cfg d tsc (c, passes f)

  -- An access of the align thread, and with the end of a wait those that follow.
  unfoldable align_alone : ℕ → Channel d × Aligning → Channel d × Aligning
  align_alone tsc s = finish_align tsc (align_access cfg d tsc s)

  -- The accesses of the send thread until it has no frame at hand, `n` more at most.
  unfoldable send_alone : ℕ → Channel d × Sending × Sender → Result (Channel d × Sending × Sender)
  send_alone zero s = ok s
  send_alone (suc n) (c, idles, s) = ok (c, idles, s)
  send_alone (suc n) (c, builds f, s) = send_access cfg d (c, builds f, s) >>= send_alone n
  send_alone (suc n) (c, empties f, s) = send_access cfg d (c, empties f, s) >>= send_alone n
  send_alone (suc n) (c, clears f, s) = send_access cfg d (c, clears f, s) >>= send_alone n
  send_alone (suc n) (c, puts f, s) = send_access cfg d (c, puts f, s) >>= send_alone n

  abbrev between : Channel d × Option Wait → Channel d × Aligning
  between r = (r.0, before r.1)

  align_alone-align :
      (tsc : ℕ) (c : Channel d) (w : Option Wait)
      → align_alone tsc (c, before w) ≡ between (align cfg d tsc (c, w))
  unfolding align_alone finish_align align_access align
  align_alone-align tsc c none = elim (Option-cases (d.dequeue c.ring2_3)) [
    | inl empty ↦ ground (arith, empty)
    | inr ((f, rest), got) ↦ ground (arith, got)
  ]
  align_alone-align tsc c (some w) = tested
    where
      tested : align_alone tsc (c, tests w) ≡ between (check cfg d tsc w c)
      tested = unfold check in ground arith

  same_number :
      (c : Channel d) (f : ℕ)
      → ((empty_frame cfg d f c).frames f).frame_seq ≡ (c.frames f).frame_seq
  unfolding empty_frame
  same_number c f =
      ap (λ (g : Frame). g.frame_seq)
        (update_self c.frames f
          (record (c.frames f) { count = 0; flags = memset (c.frames f).flags 0 false pack_num }))

  idle_alone : (c : Channel d) (s : Sender) → send_alone 4 (c, idles, s) ≡ ok (c, idles, s)
  unfolding send_alone
  idle_alone c s = refl

  -- The channel without the frame `f`, which had the number `q`.
  abbrev given : ℕ → ℕ → Channel d → Channel d
  given f q c = record c {
    index = update c.index q none;
    frame_pool = d.put f c.frame_pool;
    sent_frame = up c.sent_frame;
  }

  abbrev returned : ℕ → ℕ → Channel d → Sender → Result (Channel d × Sending × Sender)
  returned f q c s = if ltb q index_size then ok (given f q c, idles, s) else fault

  cleared_alone :
      (c : Channel d) (f : ℕ) (s : Sender)
      → send_alone 2 (c, clears f, s) ≡ returned f (c.frames f).frame_seq c s
  unfolding send_alone send_access
  cleared_alone c f s = elim (Bool-cases (ltb (c.frames f).frame_seq index_size)) [
    | inl in_range ↦ rw in_range refl
    | inr beyond ↦ rw beyond refl
  ]

  frame_alone :
      (c : Channel d) (f : ℕ) (s : Sender)
      → returned f (c.frames f).frame_seq (empty_frame cfg d f c) (build cfg d f c s)
        ≡ (send_frame d f (c, s) >>= λ r. ok (r.0, idles, r.1))
  unfolding send_frame give_back build empty_frame
  frame_alone c f s = elim (Bool-cases (ltb (c.frames f).frame_seq index_size)) [
    | inl in_range ↦ rw in_range refl
    | inr beyond ↦ rw beyond refl
  ]

  sent_alone :
      (c : Channel d) (f : ℕ) (s : Sender)
      → send_alone 4 (c, builds f, s) ≡ (send_frame d f (c, s) >>= λ r. ok (r.0, idles, r.1))
  unfolding send_alone send_access
  sent_alone c f s =
      cleared_alone (empty_frame cfg d f c) f (build cfg d f c s)
      ∙ ap (λ (q : ℕ). returned f q (empty_frame cfg d f c) (build cfg d f c s)) (same_number c f)
      ∙ frame_alone c f s

  send_alone-send :
      (c : Channel d) (s : Sender)
      → (send_access cfg d (c, idles, s) >>= send_alone 4)
        ≡ (send d (c, s) >>= λ r. ok (r.0, idles, r.1))
  unfolding send_access send
  send_alone-send c s = elim (Option-cases (d.dequeue c.ring3_4)) [
    | inl empty ↦ rw (empty, send_access) (rw (empty, send) (idle_alone c s))
    | inr ((f, rest), got) ↦
        rw (got, send_access) (rw (got, send) (sent_alone (record c { ring3_4 = rest }) f s))
  ]

  -- Uninterrupted, the accesses of the consumer for a packet are `assemble`; those of the align
  -- thread, with the ones that follow the end of a wait, a round of `align`; and those of the send
  -- thread a round of `send`: in all cases, those that fail included.
  alone-round :
      (p : Packet) (c : Channel d) (k : Consumer) (tsc : ℕ) (w : Option Wait) (s : Sender)
      → (consumer_alone cfg d 4 (c, at cfg d asks p k) ≡ (assemble cfg d p (c, k) >>= done cfg d p))
        × (align_alone tsc (c, before w) ≡ between (align cfg d tsc (c, w)))
        × ((send_access cfg d (c, idles, s) >>= send_alone 4)
            ≡ (send d (c, s) >>= λ r. ok (r.0, idles, r.1)))
  alone-round p c k tsc w s =
      (consumer_alone-assemble cfg d p c k, align_alone-align tsc c w, send_alone-send c s)
