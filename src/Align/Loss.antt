-- ===== src/Align/Loss.antt =====
-- A frame that is given up loses the packets after its first.
use dpdk_udp_receiver.Common.{
  ℕ, ◌+◌, ◌*◌, ◌<◌, ◌≡◌, ◌≢◌, ◌∙◌, sym, ap, arith, true, false, if◌then◌else◌, update_self,
  update_ne, List, Result,
}
use dpdk_udp_receiver.Dpdk.{Dpdk}
use dpdk_udp_receiver.Channel.{Config, Packet, Channel, pack_num, data_length}
use dpdk_udp_receiver.Assemble.{Consumer}
use dpdk_udp_receiver.Assemble.Copy.{IsValid, Holds}
use dpdk_udp_receiver.Assemble.Frames.{Assembled}
use dpdk_udp_receiver.Align.{drop_frame}
use dpdk_udp_receiver.Align.Rows.{zero_rows_lem}

module _ (cfg : Config) (d : Dpdk) where
  drop_frame-byte :
      (f : ℕ) (c : Channel d) (r o : ℕ)
      → r < pack_num
      → o < data_length
      → ((drop_frame cfg d f c).frames f).bytes (r * data_length + o)
        ≡ (if (c.frames f).flags r then (c.frames f).bytes (r * data_length + o) else 0)
  unfolding drop_frame
  drop_frame-byte f c r o hr ho =
      ap (λ g. g.bytes (r * data_length + o)) (update_self c.frames f _)
      ∙ zero_rows_lem (c.frames f) r o hr ho

  -- A frame is assembled from the packets `p` and `ps` in a frame whose flags were all false, and
  -- is then given up: the payload of `p` is still in its row, and every other row is zeros, also
  -- the rows of the packets `ps`, which had arrived.
  pub drop_frame-Assembled :
      (f s : ℕ) (p : Packet) (ps : List Packet) (c : Channel d) (k : Consumer)
      (r : Result (Channel d × Consumer)) (a : Assembled cfg d f s p ps c k r)
      → cfg.drop ≡ true
      → ((i : ℕ) → (c.frames f).flags i ≡ false)
      → IsValid p
      → Holds ((drop_frame cfg d f a.end).frames f) p
        × ((i o : ℕ)
            → i < pack_num
            → o < data_length
            → i ≢ p.packet_seq
            → ((drop_frame cfg d f a.end).frames f).bytes (i * data_length + o) ≡ 0)
  drop_frame-Assembled f s p ps c k r a on clear v = (
    λ o h.
        drop_frame-byte f a.end p.packet_seq o v.seq_in (omega (arith, v.len_in))
        ∙ rw (a.flagged on, update_self (c.frames f).flags p.packet_seq true) (a.held.0 o h),
    λ i o hi ho ne.
        drop_frame-byte f a.end i o hi ho
        ∙ rw (
          a.flagged on,
          update_ne (c.frames f).flags p.packet_seq i true (λ e. ne (sym e)),
          clear i,
        ),
  )
