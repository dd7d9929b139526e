-- ===== src/Assemble/Errors.antt =====
-- How a round of assembly ends, and what becomes of a frame that could not be got.
use dpdk_udp_receiver.Common.{ℕ, ◌≡◌, ◌↔◌, refl, arith, none, some, ok, panic, fault, update_self}
use dpdk_udp_receiver.Dpdk.{Dpdk}
use dpdk_udp_receiver.Channel.{Config, Packet, Channel}
use dpdk_udp_receiver.Assemble.{
  Consumer, copy_packet, open_frame, fill_frame, take_frame, open_tmp, assemble,
}
use dpdk_udp_receiver.Assemble.Copy.{IsValid}
use dpdk_udp_receiver.Assemble.Frames.{opened, open_frame-opened}

module _ (cfg : Config) (d : Dpdk) where
  -- No frame is at hand for a packet with the sequence number `s`: the index has none, the pool
  -- gives none, and `tmp_udpFrame` is still `nullptr`.
  pub record IsWithout (s : ℕ) (c : Channel d) (k : Consumer) : Type 0 where
    pub unindexed : c.index s ≡ none
    pub exhausted : d.get c.frame_pool ≡ none
    pub unset : k.tmp_frame ≡ none

  -- Assembly ends in rte_panic exactly when no frame is at hand; and it goes out of bounds exactly
  -- when a frame is at hand and the packet is not valid: the fields of a packet are used as they
  -- came from the network.
  pub assemble-fails_iff :
      (p : Packet) (c : Channel d) (k : Consumer)
      → ((assemble cfg d p (c, k) ≡ panic) ↔ IsWithout p.frame_seq c k)
        × ((assemble cfg d p (c, k) ≡ fault) ↔ ((¬ IsValid p) × (¬ IsWithout p.frame_seq c k)))
  unfolding assemble open_tmp take_frame open_frame fill_frame copy_packet
  assemble-fails_iff p c k = (ground arith, ground arith)

  take_frame-none :
      (c : Channel d) (k : Consumer) → d.get c.frame_pool ≡ none → take_frame cfg d (c, k) ≡ (c, k)
  unfolding take_frame
  take_frame-none c k empty = rw (empty, take_frame)

  -- The pool is empty, and `tmp_udpFrame` still holds the frame `f` of an earlier packet: a packet
  -- of a new frame `s` goes into `f` all the same. `f` is then the frame of `s` and of every other
  -- sequence number that it had, and is announced to the align thread once more.
  pub assemble_stale :
      (p : Packet) (f : ℕ) (c : Channel d) (k : Consumer)
      → IsValid p
      → c.index p.frame_seq ≡ none
      → d.get c.frame_pool ≡ none
      → k.tmp_frame ≡ some f
      → (e : Channel d) × (assemble cfg d p (c, k) ≡ ok (e, k))
        × (e.index p.frame_seq ≡ some f)
        × ((s : ℕ) → c.index s ≡ some f → e.index s ≡ some f)
        × (e.ring2_3 ≡ (d.enqueue f c.ring2_3).1)
  unfolding assemble open_tmp
  assemble_stale p f c k v free empty old = (
    opened cfg d p f c.frame_pool c,
    ground (arith, take_frame-none c k empty, open_frame-opened cfg d p f c.frame_pool c v),
    update_self c.index p.frame_seq (some f),
    λ s h. ground arith,
    refl,
  )
