-- ===== src/Pipeline/Memory.antt =====
-- No thread after the receive thread writes to the message buffers.
use dpdk_udp_receiver.Common.{ℕ, ◌≡◌, arith, Option, none, some, Option-cases, inl, inr, ok}
use dpdk_udp_receiver.Dpdk.{Dpdk}
use dpdk_udp_receiver.Channel.{Config, Packet, Channel, packet_at}
use dpdk_udp_receiver.Assemble.{
  Consumer, Loop, waiting, syncing, running, copy_packet, open_frame, fill_frame, take_frame,
  open_tmp, assemble, count_packet, run_packet, discard, handle, poll, round,
}
use dpdk_udp_receiver.Align.{Wait, align, check, pass_on, drop_frame}
use dpdk_udp_receiver.Send.{Sender, send, send_frame, give_back}

module _ (cfg : Config) (d : Dpdk) where
  assemble-messages :
      (p : Packet) (c : Channel d) (k : Consumer) (s' : Channel d × Consumer)
      → assemble cfg d p (c, k) ≡ ok s'
      → s'.0.messages ≡ c.messages
  unfolding assemble open_tmp take_frame open_frame fill_frame copy_packet
  assemble-messages p c k s' e = ground arith

  handle-messages :
      (l : Loop) (x : ℕ) (rest : d.Ring) (c : Channel d) (k : Consumer) (s' : Channel d × Consumer)
      → handle cfg d l x rest (c, k) ≡ ok s'
      → s'.0.messages ≡ c.messages
  unfolding handle discard run_packet count_packet
  handle-messages waiting x rest c k s' e = ground arith
  handle-messages syncing x rest c k s' e = ground arith
  handle-messages running x rest c k s' e =
      let p = packet_at (c.messages x) in
      let (c', k') = count_packet cfg d p x rest (c, k) in
      ground (arith, assemble-messages p c' k' s')

  pub round-messages :
      (c : Channel d) (k : Consumer) (s' : Channel d × Consumer)
      → round cfg d (c, k) ≡ ok s'
      → s'.0.messages ≡ c.messages
  unfolding round poll
  round-messages c k s' e = elim (Option-cases (d.dequeue c.ring1_2)) [
    | inl empty ↦ ground arith
    | inr ((x, rest), got) ↦ ground (arith, handle-messages k.loop x rest c k s')
  ]

  pub align-messages :
      (tsc : ℕ) (c : Channel d) (w : Option Wait) → (align cfg d tsc (c, w)).0.messages ≡ c.messages
  unfolding align check pass_on drop_frame
  align-messages tsc c none = ground arith
  align-messages tsc c (some w) = ground arith

  pub send-messages :
      (c c' : Channel d) (s s' : Sender) → send d (c, s) ≡ ok (c', s') → c'.messages ≡ c.messages
  unfolding send send_frame give_back
  send-messages c c' s s' e = ground arith
