-- ===== src/Assemble.antt =====
-- `consumer_thread` of basicfwd.cpp (DOB): it takes packets from `ring1_2`, counts gaps in their
-- sequence and, under GODOT, copies each into the frame that it belongs to.
pub mod Arrival
pub mod Copy
pub mod Frames
pub mod Errors
pub mod Gaps
pub mod Messages
use dpdk_udp_receiver.Common.{
  ℕ, zero, suc, List, [], ◌∷◌, ◌+◌, ◌*◌, ◌%◌, ◌^◌, Bool, true, Option, none, some, ltb, leb, ◌==◌,
  ◌&&◌, not, if◌then◌else◌, Bytes, update, memcpy, Result, ok, panic, fault, ◌>>=◌,
}
use dpdk_udp_receiver.Dpdk.{Dpdk}
use dpdk_udp_receiver.Channel.{Config, Packet, packet_at, Frame, Channel, pack_num, data_length}

-- The loop that the thread is in: until `assem_init`, until the last packet of a frame, for ever.
pub data Loop : Type 0 where
  waiting syncing running : Loop

-- The locals of the thread: `packetSeq` and `tmp_udpFrame`, which is `nullptr` at first and keeps
-- its value from one round to the next.
pub record Consumer : Type 0 where
  pub loop : Loop
  pub packet_seq : ℕ
  pub tmp_frame : Option ℕ

unfoldable pub new_consumer : Consumer
new_consumer = record { loop = waiting; packet_seq = 0; tmp_frame = none }

-- An `unsigned int` counter goes up by one.
abbrev pub up : ℕ → ℕ
up n = (n + 1) % 2 ^ 32

-- `memcpy(frame->data[packetSeq], packet_ptr->data, packet_ptr->packetLen)`. The source is at the
-- end of `tmp[1472]` and the row is one of `PACK_NUM`: a longer copy reads past `tmp`, and another
-- row is outside of `data`.
unfoldable pub copy_packet : Packet → Frame → Result Frame
copy_packet p f =
    if ltb p.packet_seq pack_num && leb p.packet_len data_length
    then ok
        (record f { bytes = memcpy f.bytes (p.packet_seq * data_length) p.payload p.packet_len })
    else fault

module _ (cfg : Config) (d : Dpdk) where
  -- The first packet of a frame, in the frame `f` that was got for it.
  unfoldable pub open_frame : Packet → ℕ → Channel d → Result (Channel d)
  open_frame p f c = do
    let fresh = c.frames f
    copied ← copy_packet p (record fresh { count = up fresh.count })
    let flagged = record copied {
      packet_num = pack_num;
      frame_seq = p.frame_seq;
      flags = if cfg.drop then update copied.flags p.packet_seq true else copied.flags;
    }
    ok (record c {
      index = update c.index p.frame_seq (some f);
      frames = update c.frames f flagged;
      ring2_3 = (d.enqueue f c.ring2_3).1;
    })

  -- A later packet of the frame `f`.
  unfoldable pub fill_frame : Packet → ℕ → Channel d → Result (Channel d)
  fill_frame p f c = do
    copied ← copy_packet p (c.frames f)
    ok (record c { frames = update c.frames f (record copied { count = up copied.count }) })

  -- `rte_mempool_get(sub->local_udpFrameMempool, (void **)&tmp_udpFrame)`: its return value is
  -- not read, and a failed call leaves `tmp_udpFrame` as it was.
  unfoldable pub take_frame : Channel d × Consumer → Channel d × Consumer
  take_frame (c, k) = elim (d.get c.frame_pool) [
    | none ↦ (c, k)
    | some (f, m) ↦ (record c { frame_pool = m }, record k { tmp_frame = some f })
  ]

  -- The check of `tmp_udpFrame` and the rest of the branch for a first packet.
  unfoldable pub open_tmp : Packet → Channel d × Consumer → Result (Channel d × Consumer)
  open_tmp p (c, k) = elim k.tmp_frame [
    | none ↦ panic
    | some f ↦ do c' ← open_frame p f c; ok (c', k)
  ]

  -- The GODOT part of a round.
  unfoldable pub assemble : Packet → Channel d × Consumer → Result (Channel d × Consumer)
  assemble p (c, k) = elim (c.index p.frame_seq) [
    | some f ↦ do c' ← fill_frame p f c; ok (c', k)
    | none ↦ open_tmp p (take_frame (c, k))
  ]

  -- What a round of the last loop does with the object `o` that it dequeued: the copy to `tmp`,
  -- `rte_mempool_put`, and the counters.
  unfoldable pub count_packet : Packet → ℕ → d.Ring → Channel d × Consumer → Channel d × Consumer
  count_packet p o rest (c, k) = (
    record c {
      ring1_2 = rest;
      send_pool = d.put o c.send_pool;
      global_count = up c.global_count;
      mis = if k.packet_seq == p.packet_seq then c.mis else up c.mis;
    },
    record k { packet_seq = (p.packet_seq + 1) % pack_num },
  )

  unfoldable pub run_packet : ℕ → d.Ring → Channel d × Consumer → Result (Channel d × Consumer)
  run_packet o rest (c, k) =
      let p = packet_at (c.messages o) in
      let counted = count_packet p o rest (c, k) in
      if cfg.godot then assemble p counted else ok counted

  -- The object goes back to its pool, and the loop goes on as `next`.
  unfoldable pub discard : ℕ → d.Ring → Loop → Channel d × Consumer → Channel d × Consumer
  discard o rest next (c, k) =
      (record c { ring1_2 = rest; send_pool = d.put o c.send_pool }, record k { loop = next })

  -- With an object at hand, in each of the loops.
  unfoldable pub handle : Loop → ℕ → d.Ring → Channel d × Consumer → Result (Channel d × Consumer)
  handle waiting o rest (c, k) = ok (discard o rest waiting (c, k))
  handle syncing o rest (c, k) =
      let p = packet_at (c.messages o) in
      ok (discard o rest (if p.packet_seq == 43 then running else syncing) (c, k))
  handle running o rest (c, k) = run_packet o rest (c, k)

  unfoldable pub poll : Channel d × Consumer → Result (Channel d × Consumer)
  poll (c, k) = elim (d.dequeue c.ring1_2) [
    | none ↦ ok (c, k)
    | some (o, rest) ↦ handle k.loop o rest (c, k)
  ]

  -- One round of the thread. The first loop ends where it finds `assem_init` set.
  unfoldable pub round : Channel d × Consumer → Result (Channel d × Consumer)
  round (c, k) = elim k.loop [
    | waiting ↦ if c.assem_init then ok (c, record k { loop = syncing }) else poll (c, k)
    | _ ↦ poll (c, k)
  ]

  -- `n` rounds.
  unfoldable pub rounds : ℕ → Channel d × Consumer → Result (Channel d × Consumer)
  rounds zero s = ok s
  rounds (suc n) s = round s >>= rounds n

  -- The GODOT part over a run of packets.
  unfoldable pub assemble_all : List Packet → Channel d × Consumer → Result (Channel d × Consumer)
  assemble_all [] s = ok s
  assemble_all (p ∷ ps) s = assemble p s >>= assemble_all ps
