-- ===== src/Assemble/Messages.antt =====
-- The message buffers that the consumer thread takes from `ring1_2` all go back to `send_pool`.
use dpdk_udp_receiver.Common.{
  ℕ, ◌+◌, ◌≡◌, ap, refl, arith, some, ok, times, times-perm, Option-cases, inl, inr,
}
use dpdk_udp_receiver.Dpdk.{Dpdk, Lawful}
use dpdk_udp_receiver.Channel.{Config, Packet, Channel, packet_at}
use dpdk_udp_receiver.Assemble.{
  Consumer, Loop, waiting, syncing, running, copy_packet, open_frame, fill_frame, take_frame,
  open_tmp, assemble, count_packet, run_packet, discard, handle, poll, round,
}

module _ (d : Dpdk) where
  -- Where a message buffer is: in the pool, or in the ring.
  abbrev pub held : ℕ → Channel d → ℕ
  held o c = times o (d.free c.send_pool) + times o (d.objects c.ring1_2)

module _ (cfg : Config) (d : Dpdk) where
  assemble-keeps-ring :
      (p : Packet) (c : Channel d) (k : Consumer) (s' : Channel d × Consumer)
      → assemble cfg d p (c, k) ≡ ok s'
      → (s'.0.ring1_2 ≡ c.ring1_2) × (s'.0.send_pool ≡ c.send_pool)
  unfolding assemble open_tmp take_frame open_frame fill_frame copy_packet
  assemble-keeps-ring p c k s' e = ground arith

  count_packet-keeps :
      (p : Packet) (x : ℕ) (rest : d.Ring) (c : Channel d) (k : Consumer)
      → ((count_packet cfg d p x rest (c, k)).0.ring1_2 ≡ rest)
        × ((count_packet cfg d p x rest (c, k)).0.send_pool ≡ d.put x c.send_pool)
  unfolding count_packet
  count_packet-keeps p x rest c k = (refl, refl)

  handle-keeps :
      (l : Loop) (x : ℕ) (rest : d.Ring) (c : Channel d) (k : Consumer) (s' : Channel d × Consumer)
      → handle cfg d l x rest (c, k) ≡ ok s'
      → (s'.0.ring1_2 ≡ rest) × (s'.0.send_pool ≡ d.put x c.send_pool)
  unfolding handle discard run_packet
  handle-keeps waiting x rest c k s' e = ground arith
  handle-keeps syncing x rest c k s' e = ground arith
  handle-keeps running x rest c k s' e =
      let p = packet_at (c.messages x) in
      let (c', k') = count_packet cfg d p x rest (c, k) in
      ground (arith, count_packet-keeps p x rest c k, assemble-keeps-ring p c' k' s')

  module _ (laws : Lawful d) where
    moved :
        (o x : ℕ) (rest : d.Ring) (c : Channel d)
        → d.dequeue c.ring1_2 ≡ some (x, rest)
        → times o (d.free (d.put x c.send_pool)) + times o (d.objects rest) ≡ held d o c
    moved o x rest c e = omega (
      arith,
      times-perm o (laws.free_put x c.send_pool),
      ap (times o) (laws.dequeue_some x c.ring1_2 rest e).0,
    )

    poll-keeps-messages :
        (o : ℕ) (c : Channel d) (k : Consumer) (s' : Channel d × Consumer)
        → poll cfg d (c, k) ≡ ok s'
        → held d o s'.0 ≡ held d o c
    unfolding poll
    poll-keeps-messages o c k s' e = elim (Option-cases (d.dequeue c.ring1_2)) [
      | inl empty ↦ ground arith
      | inr ((x, rest), got) ↦
          ground (arith, moved o x rest c got, handle-keeps k.loop x rest c k s')
    ]

    -- A round of the consumer thread that does not fail loses no message buffer and makes none up:
    -- each is in the pool or in the ring as often as before.
    pub round-keeps-messages :
        (o : ℕ) (c : Channel d) (k : Consumer) (s' : Channel d × Consumer)
        → round cfg d (c, k) ≡ ok s'
        → held d o s'.0 ≡ held d o c
    unfolding round
    round-keeps-messages o c k s' e = ground (arith, poll-keeps-messages o c k s')
