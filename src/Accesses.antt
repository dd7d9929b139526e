-- ===== src/Accesses.antt =====
-- The threads of one channel, one access to the shared state at a time: the GODOT part of
-- `consumer_thread`, `align_thread` and `send_to_pulsar` of basicfwd.cpp may be interrupted
-- between any two of these accesses by those of the other threads.
pub mod Spread
pub mod Tidy
pub mod Slots
pub mod Takes
pub mod Consumes
pub mod Aligns
pub mod Sends
pub mod Safety
pub mod Fresh
pub mod Promises
pub mod Whole
pub mod Rounds
pub mod Races
use dpdk_udp_receiver.Common.{
  ℕ, ◌+◌, ◌%◌, ◌^◌, ◌≡◌, true, false, ◌&&◌, none, some, ltb, if◌then◌else◌, Bytes, update, memset,
  le32, Result, ok, panic, fault, ◌>>=◌,
}
use dpdk_udp_receiver.Dpdk.{Dpdk}
use dpdk_udp_receiver.Channel.{Config, Packet, packet_at, Frame, Channel, pack_num, index_size}
use dpdk_udp_receiver.Assemble.{running, Consumer, up, copy_packet, take_frame, count_packet, round}
use dpdk_udp_receiver.Align.{Wait, timed_out, drop_frame, pass_on}
use dpdk_udp_receiver.Send.{Sender, message}
use dpdk_udp_receiver.Timer.{prepare, start, report}
use dpdk_udp_receiver.Setup.{let_start}
use dpdk_udp_receiver.Pipeline.View.{AreBytes}

-- Where the consumer stands: before it takes a packet, in whichever loop; and in its last loop
-- before the test of the index, before rte_mempool_get, before the writes to a new frame, before
-- rte_ring_enqueue, before the copy of a later packet, and before `count += 1`.
pub data Point : Type 0 where
  away asks gets opens announces fills adds : Point

pub record Taking : Type 0 where
  pub place : Point
  pub packet : Packet
  pub locals : Consumer

-- Where the align thread stands: before rte_ring_dequeue, before the test of the inner loop,
-- before the clean-up of a frame that is given up, and before `align_num++`.
pub data Aligning : Type 0 where
  seeks : Aligning
  tests : Wait → Aligning
  cleans passes : ℕ → Aligning

-- Where the send thread stands with a frame: before it reads it, before it empties it, before it
-- clears the frame's slot of the index, and before rte_mempool_put.
pub data Sending : Type 0 where
  idles : Sending
  builds empties clears puts : ℕ → Sending

abbrev pub go : Point → Taking → Taking
go l t = record t { place = l }

-- `count += 1`.
unfoldable pub add_one : Frame → Result Frame
add_one g = ok (record g { count = up g.count })

module _ (d : Dpdk) where
  -- An access through `pUDPFrameIndex->pUDPFrame[frameSeq]`, which each statement reads anew: a
  -- null pointer is dereferenced where the slot is empty.
  unfoldable pub through : ℕ → (Frame → Result Frame) → Channel d → Result (Channel d)
  through s write c = elim (c.index s) [
    | none ↦ fault
    | some f ↦ do g ← write (c.frames f); ok (record c { frames = update c.frames f g })
  ]

  pub record Threads : Type 0 where
    pub chan : Channel d
    pub taking : Taking
    pub aligning : Aligning
    pub sending : Sending
    pub sender : Sender

module _ (cfg : Config) (d : Dpdk) where
  -- The slot of the index and the fields of the new frame `f`, which no other thread reaches
  -- before it is announced.
  unfoldable pub new_frame : Packet → ℕ → Channel d → Result (Channel d)
  new_frame p f c = do
    let fresh = c.frames f
    copied ← copy_packet p (record fresh { count = up fresh.count })
    let flagged = record copied {
      packet_num = pack_num;
      frame_seq = p.frame_seq;
      flags = if cfg.drop then update copied.flags p.packet_seq true else copied.flags;
    }
    ok (record c {
      index = update c.index p.frame_seq (some f);
      frames = update c.frames f flagged;
    })

  -- The copy of a packet out of its buffer, and the counters, touch no frame: they are one step.
  -- A round of the first loops, which put what they take back into the pool.
  unfoldable pub warm_up : Channel d × Taking → Result (Channel d × Taking)
  warm_up (c, t) = do s ← round cfg d (c, t.locals); ok (s.0, record t { locals = s.1 })

  unfoldable pub take_packet : Channel d × Taking → Result (Channel d × Taking)
  take_packet (c, t) = elim (d.dequeue c.ring1_2) [
    | none ↦ ok (c, t)
    | some (o, rest) ↦
        let p = packet_at (c.messages o) in
        let s = count_packet cfg d p o rest (c, t.locals) in
        ok (s.0, record { place = asks; packet = p; locals = s.1 })
  ]

  -- rte_mempool_get and the test of `tmp_udpFrame`.
  unfoldable pub get_frame : Channel d × Taking → Result (Channel d × Taking)
  get_frame (c, t) =
      let s = take_frame cfg d (c, t.locals) in
      elim s.1.tmp_frame [
        | none ↦ panic
        | some f ↦ ok (s.0, record t { place = opens; locals = s.1 })
      ]

  unfoldable pub open_new : Channel d × Taking → Result (Channel d × Taking)
  open_new (c, t) = elim t.locals.tmp_frame [
    | none ↦ fault
    | some f ↦ do c' ← new_frame t.packet f c; ok (c', go announces t)
  ]

  -- `rte_ring_enqueue(sub->ring2_3, pUDPFrameIndex->pUDPFrame[frameSeq])`. To announce a null
  -- pointer counts as a fault here.
  unfoldable pub announce : Channel d × Taking → Result (Channel d × Taking)
  announce (c, t) = elim (c.index t.packet.frame_seq) [
    | none ↦ fault
    | some f ↦ ok (record c { ring2_3 = (d.enqueue f c.ring2_3).1 }, go away t)
  ]

  unfoldable pub ask : Channel d × Taking → Result (Channel d × Taking)
  ask (c, t) = elim (c.index t.packet.frame_seq) [
    | none ↦ ok (c, go gets t)
    | some f ↦ ok (c, go fills t)
  ]

  unfoldable pub access_at : Point → Channel d × Taking → Result (Channel d × Taking)
  access_at away (c, t) = elim t.locals.loop [ running ↦ take_packet (c, t) | _ ↦ warm_up (c, t) ]
  access_at asks s = ask s
  access_at gets s = get_frame s
  access_at opens s = open_new s
  access_at announces s = announce s
  access_at fills (c, t) = do
    c' ← through d t.packet.frame_seq (copy_packet t.packet) c
    ok (c', go adds t)
  access_at adds (c, t) = do c' ← through d t.packet.frame_seq add_one c; ok (c', go away t)

  -- The next access of the consumer.
  unfoldable pub consumer_access : Channel d × Taking → Result (Channel d × Taking)
  consumer_access (c, t) = access_at t.place (c, t)

  -- The next access of the align thread, with the clock at `tsc`.
  unfoldable pub align_access : ℕ → Channel d × Aligning → Channel d × Aligning
  align_access tsc (c, seeks) = elim (d.dequeue c.ring2_3) [
    | none ↦ (c, seeks)
    | some (f, rest) ↦ (record c { ring2_3 = rest }, tests (record { frame = f; prev_tsc = tsc }))
  ]
  align_access tsc (c, tests w) =
      if ltb (c.frames w.frame).count (c.frames w.frame).packet_num
      then if cfg.drop && timed_out w.prev_tsc tsc then (c, cleans w.frame) else (c, tests w)
      else (c, passes w.frame)
  align_access tsc (c, cleans f) = (drop_frame cfg d f c, passes f)
  align_access tsc (c, passes f) = (pass_on cfg d f c, seeks)

  -- The message of the frame `f`, and its time flag.
  unfoldable pub build : ℕ → Channel d → Sender → Sender
  build f c s =
      let tmp = message s.tmp s.send_id (c.frames f).bytes in
      let timeflag = le32 tmp 26 in
      record s {
        tmp = tmp;
        timeflag = timeflag;
        last_timeflag = (timeflag + 1000) % 2 ^ 32 % 5600000;
      }

  -- `count = 0` and the reset of the flags.
  unfoldable pub empty_frame : ℕ → Channel d → Channel d
  empty_frame f c = record c {
    frames =
        update c.frames f
          (record (c.frames f) { count = 0; flags = memset (c.frames f).flags 0 false pack_num });
  }

  -- The next access of the send thread.
  unfoldable pub send_access : Channel d × Sending × Sender → Result (Channel d × Sending × Sender)
  send_access (c, idles, s) = elim (d.dequeue c.ring3_4) [
    | none ↦ ok (c, idles, s)
    | some (f, rest) ↦ ok (record c { ring3_4 = rest }, builds f, s)
  ]
  send_access (c, builds f, s) = ok (c, empties f, build f c s)
  send_access (c, empties f, s) = ok (empty_frame f c, clears f, s)
  send_access (c, clears f, s) =
      if ltb (c.frames f).frame_seq index_size
      then ok (record c { index = update c.index (c.frames f).frame_seq none }, puts f, s)
      else fault
  send_access (c, puts f, s) =
      ok (record c { frame_pool = d.put f c.frame_pool; sent_frame = up c.sent_frame }, idles, s)

  -- One access of one of the threads, a delivery by the receive thread, a flag that the timer
  -- thread, the send thread or `main` sets, or a report.
  pub data Step (x : Threads d) : Threads d → Type 0 where
    consumes :
        (c : Channel d) (t : Taking)
        → consumer_access (x.chan, x.taking) ≡ ok (c, t)
        → Step x (record x { chan = c; taking = t })
    aligns :
        (tsc : ℕ) (c : Channel d) (a : Aligning)
        → align_access tsc (x.chan, x.aligning) ≡ (c, a)
        → Step x (record x { chan = c; aligning = a })
    sends :
        (c : Channel d) (g : Sending) (s : Sender)
        → send_access (x.chan, x.sending, x.sender) ≡ ok (c, g, s)
        → Step x (record x { chan = c; sending = g; sender = s })
    delivers :
        (r : d.Ring) (m : d.Pool) (mem : ℕ → Bytes)
        → AreBytes mem
        → Step x
            (record x { chan = record (x.chan) { ring1_2 = r; send_pool = m; messages = mem } })
    prepares : Step x (record x { chan = prepare d x.chan })
    starts : Step x (record x { chan = start d x.chan })
    permits : Step x (record x { chan = let_start d x.chan })
    reports : (count forward : ℕ) → Step x (record x { chan = (report d count forward x.chan).1 })

  -- A run in which every state before a step is as `P` says.
  pub data Run (P : Threads d → Type 0) (x : Threads d) : Threads d → Type 0 where
    here : Run P x x
    next : {y z : Threads d} → Run P x y → P y → Step y z → Run P x z
