-- ===== src/Send/Message.antt =====
-- What a message holds, and what the sender leaves behind.
use dpdk_udp_receiver.Common.{
  ℕ, ◌+◌, ◌-◌, ◌/◌, ◌%◌, ◌^◌, ◌<◌, ◌≡◌, ◌∙◌, ap, refl, arith, Bool, false, none, Bytes, le32,
  update, memset, update_self, Result, ok, lt→ltb,
}
use dpdk_udp_receiver.Dpdk.{Dpdk}
use dpdk_udp_receiver.Channel.{Channel, pack_num, message_length, index_size}
use dpdk_udp_receiver.Assemble.{up}
use dpdk_udp_receiver.Send.{Sender, message, give_back, send_frame}

shift : (k : ℕ) → k + 2 - 2 ≡ k
shift k = omega arith

message-byte :
    (tmp : Bytes) (send_id : ℕ) (bytes : Bytes) (o : ℕ)
    → o < message_length
    → message tmp send_id bytes (o + 2) ≡ bytes o
unfolding message
message-byte tmp send_id bytes o h = ground (arith, ap bytes (shift o))

message-header :
    (tmp : Bytes) (send_id : ℕ) (bytes : Bytes)
    → (message tmp send_id bytes 0 ≡ send_id % 256)
      × (message tmp send_id bytes 1 ≡ send_id / 256 % 256)
unfolding message
message-header tmp send_id bytes = (omega arith, omega arith)

le32-message :
    (tmp : Bytes) (send_id : ℕ) (bytes : Bytes)
    → le32 (message tmp send_id bytes) 26 ≡ le32 bytes 24
le32-message tmp send_id bytes = omega (
  arith,
  message-byte tmp send_id bytes 24 (omega arith),
  message-byte tmp send_id bytes 25 (omega arith),
  message-byte tmp send_id bytes 26 (omega arith),
  message-byte tmp send_id bytes 27 (omega arith),
)

memset_in : (flags : ℕ → Bool) (i : ℕ) → i < pack_num → memset flags 0 false pack_num i ≡ false
memset_in flags i h = ground arith

module _ (d : Dpdk) where
  -- What sending the frame `f` leads to.
  pub record Sent (f : ℕ) (c : Channel d) (s : Sender) (r : Result (Channel d × Sender))
      : Type 0 where
    pub end : Channel d
    pub locals : Sender
    pub returns : r ≡ ok (end, locals)
    pub payload : (o : ℕ) → o < message_length → locals.tmp (o + 2) ≡ (c.frames f).bytes o
    pub header : (locals.tmp 0 ≡ s.send_id % 256) × (locals.tmp 1 ≡ s.send_id / 256 % 256)
    pub stamped : locals.timeflag ≡ le32 (c.frames f).bytes 24
    pub emptied : (end.frames f).count ≡ 0
    pub unflagged : (i : ℕ) → i < pack_num → (end.frames f).flags i ≡ false
    pub unindexed : end.index ≡ update c.index (c.frames f).frame_seq none
    pub returned : end.frame_pool ≡ d.put f c.frame_pool
    pub counted : end.sent_frame ≡ up c.sent_frame
    pub same_rings : (end.ring2_3 ≡ c.ring2_3) × (end.ring3_4 ≡ c.ring3_4)

  abbrev given_back : ℕ → Channel d → Channel d
  given_back f c =
      let g = c.frames f in
      record c {
        frames =
            update c.frames f (record g { count = 0; flags = memset g.flags 0 false pack_num });
        index = update c.index g.frame_seq none;
        frame_pool = d.put f c.frame_pool;
        sent_frame = up c.sent_frame;
      }

  give_back-given_back :
      (f : ℕ) (c : Channel d)
      → (c.frames f).frame_seq < index_size
      → give_back d f c ≡ ok (given_back f c)
  unfolding give_back
  give_back-given_back f c h = rw (lt→ltb _ _ h)

  abbrev sent_locals : Sender → Bytes → Sender
  sent_locals s bytes =
      let tmp = message s.tmp s.send_id bytes in
      record s {
        tmp = tmp;
        timeflag = le32 tmp 26;
        last_timeflag = (le32 tmp 26 + 1000) % 2 ^ 32 % 5600000;
      }

  given_back_frame :
      (f : ℕ) (c : Channel d)
      → (given_back f c).frames f
        ≡ (let g = c.frames f in record g { count = 0; flags = memset g.flags 0 false pack_num })
  given_back_frame f c = update_self c.frames f _

  -- A frame with a sequence number inside the index is sent: the message is the low half of
  -- `send_id`, then the first 64040 bytes of the frame, and `timeflag` is read from the frame's
  -- bytes 24 to 27. The frame is then empty, none of its rows is flagged, its slot of the index is
  -- clear and the others are as they were, it is back in the pool, and `ring2_3` and `ring3_4` are
  -- as they were.
  pub send_frame-Sent :
      (f : ℕ) (c : Channel d) (s : Sender)
      → (c.frames f).frame_seq < index_size
      → Sent f c s (send_frame d f (c, s))
  unfolding send_frame
  send_frame-Sent f c s h = record {
    end = given_back f c;
    locals = sent_locals s (c.frames f).bytes;
    returns = rw (give_back-given_back f c h);
    payload = message-byte s.tmp s.send_id (c.frames f).bytes;
    header = message-header s.tmp s.send_id (c.frames f).bytes;
    stamped = le32-message s.tmp s.send_id (c.frames f).bytes;
    emptied = ap (λ g. g.count) (given_back_frame f c);
    unflagged =
        λ i hi. ap (λ g. g.flags i) (given_back_frame f c) ∙ memset_in (c.frames f).flags i hi;
    unindexed = refl;
    returned = refl;
    counted = refl;
    same_rings = (refl, refl);
  }
