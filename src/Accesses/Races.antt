-- ===== src/Accesses/Races.antt =====
-- Under DROP the align thread may give a frame up while the consumer, which has found it in the
-- index, is about to copy into it: orders of the accesses that lead to a null pointer, and to a
-- frame that is free and not empty.
use dpdk_udp_receiver.Common.{
  ℕ, ◌<◌, ◌≡◌, ◌∙◌, refl, ap, arith, true, none, some, [], ◌∷◌, ◌++◌, ok, fault, update,
  update_self, times, ==_iff, length,
}
use dpdk_udp_receiver.Dpdk.{Dpdk, Lawful}
use dpdk_udp_receiver.Dpdk.Laws.{dequeue-cons, times-put}
use dpdk_udp_receiver.Channel.{Config, Packet, Frame, Channel, pack_num, index_size}
use dpdk_udp_receiver.Assemble.{Consumer, up}
use dpdk_udp_receiver.Align.{timed_out, drop_frame, pass_on}
use dpdk_udp_receiver.Send.{Sender}
use dpdk_udp_receiver.Pipeline.Aligns.{frame_seq-zero_rows}
use dpdk_udp_receiver.Accesses.{
  Point, away, fills, adds, seeks, tests, cleans, passes, idles, builds, empties, clears, puts,
  through, add_one, access_at, consumer_access, align_access, build, empty_frame, send_access,
  Threads, consumes, aligns, sends, Run, here, next,
}
use dpdk_udp_receiver.Accesses.Slots.{through-some}

-- Any state may come before a step.
abbrev pub Anything : {d : Dpdk} → Threads d → Type 0
Anything x = Unit {0}

module _ (cfg : Config) (d : Dpdk) where
  -- The index leads from the packet `p` to the frame `f`, which lacks packets; the align thread has
  -- waited for `f` from `begun` on, too long by `tsc`; and `ring3_4` is empty.
  pub record IsLate (c : Channel d) (p : Packet) (f begun tsc : ℕ) : Type 0 where
    pub dropping : cfg.drop ≡ true
    pub looked_up : c.index p.frame_seq ≡ some f
    pub named : (c.frames f).frame_seq ≡ p.frame_seq
    pub in_index : p.frame_seq < index_size
    pub short : (c.frames f).count < (c.frames f).packet_num
    pub late : timed_out begun tsc ≡ true
    pub none_passed : d.objects c.ring3_4 ≡ []
    pub room : 0 < d.capacity c.ring3_4

  -- The consumer stands at `l` with the packet `p`, the align thread tests `f`, the send thread has
  -- nothing to do.
  abbrev pub meeting : Point → Channel d → Packet → Consumer → ℕ → ℕ → Sender → Threads d
  meeting l c p k f begun s = record {
    chan = c;
    taking = record { place = l; packet = p; locals = k };
    aligning = tests (record { frame = f; prev_tsc = begun });
    sending = idles;
    sender = s;
  }

  module _ (l : Point) (c : Channel d) (p : Packet) (k : Consumer) (f begun tsc : ℕ) (s : Sender)
      (h : IsLate c p f begun tsc) where
    gives_up :
        align_access cfg d tsc (c, tests (record { frame = f; prev_tsc = begun })) ≡ (c, cleans f)
    unfolding align_access
    gives_up = ground (arith, h.dropping, h.late, h.short)

    -- The channel when the frame has been given up and passed on.
    abbrev passed : Channel d
    passed = pass_on cfg d f (drop_frame cfg d f c)

    queued : (laws : Lawful d) → d.objects passed.ring3_4 ≡ f ∷ []
    unfolding pass_on drop_frame
    queued laws =
        (laws.enqueue_room f c.ring3_4 (omega (arith, h.room, ap (length {0}) h.none_passed))).1
        ∙ ap (λ os. os ++ f ∷ []) h.none_passed

    -- When the send thread has emptied it.
    abbrev emptied : d.Ring → Channel d
    emptied rest = empty_frame cfg d f (record passed { ring3_4 = rest })

    abbrev after : d.Ring → Threads d
    after rest = record {
      chan = emptied rest;
      taking = record { place = l; packet = p; locals = k };
      aligning = seeks;
      sending = clears f;
      sender = build cfg d f (record passed { ring3_4 = rest }) s;
    }

    Run-emptied :
        (rest : d.Ring)
        → d.dequeue passed.ring3_4 ≡ some (f, rest)
        → Run cfg d Anything (meeting l c p k f begun s) (after rest)
    unfolding align_access send_access
    Run-emptied rest got =
        next
          (next
            (next
              (next
                (next (next here tt (aligns tsc c (cleans f) gives_up)) tt
                  (aligns tsc (drop_frame cfg d f c) (passes f) refl))
                tt (aligns tsc passed seeks refl))
              tt
              (sends (record passed { ring3_4 = rest }) (builds f) s (rw (got, send_access) refl)))
            tt (sends _ (empties f) _ refl))
          tt (sends _ (clears f) _ refl)

    emptied-index : (rest : d.Ring) → (emptied rest).index p.frame_seq ≡ some f
    unfolding empty_frame pass_on drop_frame
    emptied-index rest = h.looked_up

    emptied-number : (rest : d.Ring) → ((emptied rest).frames f).frame_seq ≡ p.frame_seq
    unfolding empty_frame pass_on drop_frame
    emptied-number rest =
        ap (λ (g : Frame). g.frame_seq) (update_self passed.frames f _)
        ∙ ap (λ (g : Frame). g.frame_seq) (update_self c.frames f _)
        ∙ frame_seq-zero_rows pack_num 0 (c.frames f)
        ∙ h.named

    emptied-count : (rest : d.Ring) → ((emptied rest).frames f).count ≡ 0
    unfolding empty_frame
    emptied-count rest = ap (λ (g : Frame). g.count) (update_self passed.frames f _)

    -- The slot of a frame with the number of `p` is cleared.
    clears-slot :
        (e : Channel d) (t : Sender)
        → (e.frames f).frame_seq ≡ p.frame_seq
        → send_access cfg d (e, clears f, t)
          ≡ ok (record e { index = update e.index (e.frames f).frame_seq none }, puts f, t)
    unfolding send_access
    clears-slot e t same = ground (arith, same, h.in_index)

-- The copy of a later packet reads its slot anew.
cleared-fault :
    (cfg : Config) (d : Dpdk) (e : Channel d) (p : Packet) (k : Consumer) (q : ℕ)
    → q ≡ p.frame_seq
    → consumer_access cfg d (
      record e { index = update e.index q none },
      record { place = fills; packet = p; locals = k },
    )
      ≡ fault
unfolding consumer_access access_at through
cleared-fault cfg d e p k q same = ground (arith, ==_iff q p.frame_seq)

-- Under DROP: where the consumer has found the frame of its packet in the index and is about to
-- copy into it, while the align thread has waited for this frame too long, there is an order of
-- the accesses after which the consumer dereferences a null pointer.
pub IsLate-fault :
    (cfg : Config) (d : Dpdk) (laws : Lawful d) (c : Channel d) (p : Packet) (k : Consumer)
    (f begun tsc : ℕ) (s : Sender)
    → IsLate cfg d c p f begun tsc
    → (y : Threads d) × Run cfg d Anything (meeting cfg d fills c p k f begun s) y
      × (consumer_access cfg d (y.chan, y.taking) ≡ fault)
IsLate-fault cfg d laws c p k f begun tsc s h =
    let (rest, got, none_left) =
      dequeue-cons d laws f [] _ (queued cfg d fills c p k f begun tsc s h laws) in
    let e = emptied cfg d fills c p k f begun tsc s h rest in
    let number = emptied-number cfg d fills c p k f begun tsc s h rest in
    (
      record (after cfg d fills c p k f begun tsc s h rest) {
        chan = record e { index = update e.index (e.frames f).frame_seq none };
        sending = puts f;
      },
      next (Run-emptied cfg d fills c p k f begun tsc s h rest got) tt
          (sends _ _ _ (clears-slot cfg d fills c p k f begun tsc s h e _ number)),
      cleared-fault cfg d e p k (e.frames f).frame_seq number,
    )

-- Under DROP: where the consumer has copied a packet and is about to count it, while the align
-- thread has waited for this frame too long, there is an order of the accesses after which the
-- frame is free, and its count is one and not zero.
pub IsLate-count :
    (cfg : Config) (d : Dpdk) (laws : Lawful d) (c : Channel d) (p : Packet) (k : Consumer)
    (f begun tsc : ℕ) (s : Sender)
    → IsLate cfg d c p f begun tsc
    → (y : Threads d) × Run cfg d Anything (meeting cfg d adds c p k f begun s) y
      × (0 < times f (d.free y.chan.frame_pool))
      × ((y.chan.frames f).count ≡ 1)
unfolding consumer_access access_at add_one send_access
IsLate-count cfg d laws c p k f begun tsc s h =
    let (rest, got, none_left) =
      dequeue-cons d laws f [] _ (queued cfg d adds c p k f begun tsc s h laws) in
    let e = emptied cfg d adds c p k f begun tsc s h rest in
    let g : Frame = record (e.frames f) { count = up (e.frames f).count } in
    let counted : Channel d = record e { frames = update e.frames f g } in
    let x = after cfg d adds c p k f begun tsc s h rest in
    let index = emptied-index cfg d adds c p k f begun tsc s h rest in
    let number = emptied-number cfg d adds c p k f begun tsc s h rest in
    let out : Channel d = record counted {
      index = update e.index (counted.frames f).frame_seq none;
    } in
    let free : Channel d = record out {
      frame_pool = d.put f out.frame_pool;
      sent_frame = up out.sent_frame;
    } in
    let done = through-some d e p.frame_seq f add_one g index refl in
    (
      record x {
        chan = free;
        taking = record { place = away; packet = p; locals = k };
        sending = idles;
      },
      next
          (next
            (next (Run-emptied cfg d adds c p k f begun tsc s h rest got) tt
              (consumes counted (record { place = away; packet = p; locals = k }) (rw done refl)))
            tt
            (sends out (puts f) x.sender (
              clears-slot cfg d adds c p k f begun tsc s h counted x.sender
                (ap (λ (v : Frame). v.frame_seq) (update_self e.frames f g) ∙ number))))
          tt (sends free idles x.sender refl),
      ground (arith, times-put d laws f f out.frame_pool, ==_iff f f),
      ap (λ (v : Frame). v.count) (update_self e.frames f g)
          ∙ ap up (emptied-count cfg d adds c p k f begun tsc s h rest),
    )
