-- ===== src/Pipeline/Consumes.antt =====
-- A round of the consumer thread moves at most one frame, in a way that `Life` allows.
use dpdk_udp_receiver.Common.{
  ℕ, ◌<◌, ◌≡◌, ◌≢◌, refl, ap, arith, subst, Option, none, some, ok, Option-cases, Bool-cases, inl,
  inr, ◌⊎◌, Bytes,
}
use dpdk_udp_receiver.Dpdk.{Dpdk}
use dpdk_udp_receiver.Channel.{Config, Packet, Channel, packet_at}
use dpdk_udp_receiver.Assemble.{
  Consumer, Loop, waiting, syncing, running, copy_packet, open_frame, fill_frame, take_frame,
  open_tmp, assemble, count_packet, run_packet, discard, handle, poll, round,
}
use dpdk_udp_receiver.Assemble.Frames.{filled, opened}
use dpdk_udp_receiver.Align.{Wait}
use dpdk_udp_receiver.Pipeline.Life.{Move, fill, start}
use dpdk_udp_receiver.Pipeline.View.{AreBytes, life, stay_at}

-- The sequence number of a packet is a `uint16_t`.
pub frame_seq-packet_at :
    (tmp : Bytes) → ((i : ℕ) → tmp i < 256) → (packet_at tmp).frame_seq < 65536
unfolding packet_at
frame_seq-packet_at tmp h = omega (arith, h 2, h 3)

Loop-cases : (l : Loop) → (l ≡ waiting) ⊎ (l ≢ waiting)
Loop-cases waiting = inl refl
Loop-cases syncing = inr (λ e. cc)
Loop-cases running = inr (λ e. cc)

module _ (cfg : Config) (d : Dpdk) where
  assemble_indexed :
      (p : Packet) (f : ℕ) (c c' : Channel d) (k k' : Consumer)
      → c.index p.frame_seq ≡ some f
      → assemble cfg d p (c, k) ≡ ok (c', k')
      → filled cfg d p f c ≡ c'
  unfolding assemble fill_frame copy_packet
  assemble_indexed p f c c' k k' at e = ground arith

  assemble_unindexed :
      (p : Packet) (f : ℕ) (m : d.Pool) (c c' : Channel d) (k k' : Consumer)
      → c.index p.frame_seq ≡ none
      → d.get c.frame_pool ≡ some (f, m)
      → assemble cfg d p (c, k) ≡ ok (c', k')
      → opened cfg d p f m c ≡ c'
  unfolding assemble open_tmp take_frame open_frame copy_packet
  assemble_unindexed p f m c c' k k' free got e = ground arith

  -- What assembly does with a packet, where the pool is not empty.
  assemble-Move :
      (p : Packet) (c c' : Channel d) (k k' : Consumer) (w : Option Wait)
      → p.frame_seq < 65536
      → d.get c.frame_pool ≢ none
      → assemble cfg d p (c, k) ≡ ok (c', k')
      → Move d (life d c w) (life d c' w)
  assemble-Move p c c' k k' w small some_free e = elim (Option-cases (c.index p.frame_seq)) [
    | inr (f, at) ↦
        subst (λ z. Move d (life d c w) (life d z w)) (assemble_indexed p f c c' k k' at e)
          (fill p.frame_seq f _ at refl)
    | inl free ↦ elim (Option-cases (d.get c.frame_pool)) [
      | inl empty ↦ absurd (some_free empty)
      | inr ((f, m), got) ↦
          subst (λ z. Move d (life d c w) (life d z w))
            (assemble_unindexed p f m c c' k k' free got e)
            (start p.frame_seq f m _ small free got refl)
    ]
  ]

  -- A round that only counts or discards a packet does not move a frame.
  counts_stay :
      (p : Packet) (o : ℕ) (rest : d.Ring) (c : Channel d) (k : Consumer) (w : Option Wait)
      → life d (count_packet cfg d p o rest (c, k)).0 w ≡ life d c w
  unfolding count_packet
  counts_stay p o rest c k w = refl

  discarded :
      (l : Loop) (o : ℕ) (rest : d.Ring) (c c' : Channel d) (k k' : Consumer) (w : Option Wait)
      → ok (discard cfg d o rest l (c, k)) ≡ ok (c', k')
      → life d c w ≡ life d c' w
  unfolding discard
  discarded l o rest c c' k k' w e = ap (λ z. life d z w) (left e)
    where
      left : {a b : Channel d × Consumer} → ok a ≡ ok b → a.0 ≡ b.0
      left e = ground arith

  run_packet-Move :
      (o : ℕ) (rest : d.Ring) (c c' : Channel d) (k k' : Consumer) (w : Option Wait)
      → AreBytes c.messages
      → d.get c.frame_pool ≢ none
      → run_packet cfg d o rest (c, k) ≡ ok (c', k')
      → Move d (life d c w) (life d c' w)
  unfolding run_packet count_packet
  run_packet-Move o rest c c' k k' w bytes some_free e =
      let p = packet_at (c.messages o) in
      let s = count_packet cfg d p o rest (c, k) in
      elim (Bool-cases cfg.godot) [
        | inl on ↦
            assemble-Move p s.0 c' s.1 k' w (frame_seq-packet_at (c.messages o) (bytes o)) some_free
              (ground arith)
        | inr off ↦ let same : s.0 ≡ c' = ground arith in stay_at (ap (λ z. life d z w) same)
      ]

  handle-Move :
      (l : Loop) (o : ℕ) (rest : d.Ring) (c c' : Channel d) (k k' : Consumer) (w : Option Wait)
      → AreBytes c.messages
      → d.get c.frame_pool ≢ none
      → handle cfg d l o rest (c, k) ≡ ok (c', k')
      → Move d (life d c w) (life d c' w)
  unfolding handle
  handle-Move waiting o rest c c' k k' w bytes some_free e =
      stay_at (discarded waiting o rest c c' k k' w e)
  handle-Move syncing o rest c c' k k' w bytes some_free e =
      stay_at (discarded _ o rest c c' k k' w e)
  handle-Move running o rest c c' k k' w bytes some_free e =
      run_packet-Move o rest c c' k k' w bytes some_free e

  poll-Move :
      (c c' : Channel d) (k k' : Consumer) (w : Option Wait)
      → AreBytes c.messages
      → d.get c.frame_pool ≢ none
      → poll cfg d (c, k) ≡ ok (c', k')
      → Move d (life d c w) (life d c' w)
  unfolding poll
  poll-Move c c' k k' w bytes some_free e = elim (Option-cases (d.dequeue c.ring1_2)) [
    | inl empty ↦ let same : c ≡ c' = ground arith in stay_at (ap (λ z. life d z w) same)
    | inr ((o, rest), got) ↦ handle-Move k.loop o rest c c' k k' w bytes some_free (ground arith)
  ]

  pub round-Move :
      (c c' : Channel d) (k k' : Consumer) (w : Option Wait)
      → AreBytes c.messages
      → d.get c.frame_pool ≢ none
      → round cfg d (c, k) ≡ ok (c', k')
      → Move d (life d c w) (life d c' w)
  unfolding round
  round-Move c c' k k' w bytes some_free e = elim (Bool-cases c.assem_init) [
    | inl set ↦ elim (Loop-cases k.loop) [
      | inl at ↦ let same : c ≡ c' = ground arith in stay_at (ap (λ z. life d z w) same)
      | inr at ↦ poll-Move c c' k k' w bytes some_free (ground arith)
    ]
    | inr unset ↦ poll-Move c c' k k' w bytes some_free (ground arith)
  ]
