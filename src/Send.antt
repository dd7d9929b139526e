-- ===== src/Send.antt =====
-- `send_to_pulsar` of basicfwd.cpp (KAZE): it builds the message of a frame that the align thread
-- passed on, and gives the frame back. SEND is not defined, so the message goes nowhere.
pub mod Message
use dpdk_udp_receiver.Common.{
  ◌>>=◌, ℕ, ◌+◌, ◌/◌, ◌%◌, ◌^◌, false, Option, none, some, ltb, if◌then◌else◌, Bytes, update,
  memcpy, memset, le32, Result, ok, fault,
}
use dpdk_udp_receiver.Dpdk.{Dpdk}
use dpdk_udp_receiver.Channel.{Channel, pack_num, message_length, index_size}
use dpdk_udp_receiver.Assemble.{up}

-- The locals `tmp`, `send_id`, which nothing ever assigns, `timeflag` and `last_timeflag`, where
-- rte_malloc has given the memory of `tmp`. A null pointer is not checked for; Boot has that case.
pub record Sender : Type 0 where
  pub tmp : Bytes
  pub send_id : ℕ
  pub timeflag : ℕ
  pub last_timeflag : ℕ

-- The bytes of an `int` in memory.
abbrev pub int_bytes : ℕ → Bytes
int_bytes n o = n / 256 ^ o % 256

-- The three writes to `tmp`.
unfoldable pub message : Bytes → ℕ → Bytes → Bytes
message tmp send_id bytes =
    memcpy (memcpy (memset tmp 0 0 (message_length + 2)) 2 bytes message_length) 0
      (int_bytes send_id) 2

module _ (d : Dpdk) where
  -- The frame is emptied, taken out of the index and put back to the pool. A sequence number
  -- beyond the index is an access out of bounds.
  unfoldable pub give_back : ℕ → Channel d → Result (Channel d)
  give_back f c =
      let g = c.frames f in
      if ltb g.frame_seq index_size
      then ok (record c {
        frames =
            update c.frames f (record g { count = 0; flags = memset g.flags 0 false pack_num });
        index = update c.index g.frame_seq none;
        frame_pool = d.put f c.frame_pool;
        sent_frame = up c.sent_frame;
      })
      else fault

  -- A round with the frame `f` at hand.
  unfoldable pub send_frame : ℕ → Channel d × Sender → Result (Channel d × Sender)
  send_frame f (c, s) = do
    let tmp = message s.tmp s.send_id (c.frames f).bytes
    let timeflag = le32 tmp 26
    c' ← give_back f c
    ok (
      c',
      record s {
        tmp = tmp;
        timeflag = timeflag;
        last_timeflag = (timeflag + 1000) % 2 ^ 32 % 5600000;
      },
    )

  unfoldable pub send : Channel d × Sender → Result (Channel d × Sender)
  send (c, s) = elim (d.dequeue c.ring3_4) [
    | none ↦ ok (c, s)
    | some (f, rest) ↦ send_frame f (record c { ring3_4 = rest }, s)
  ]
