-- ===== src/Pipeline/Sends.antt =====
-- A round of the send thread moves at most one frame, in a way that `Life` allows, and never
-- leaves the index.
use dpdk_udp_receiver.Common.{
  ℕ, ◌<◌, ◌≡◌, ◌≢◌, refl, ap, arith, subst, false, Option, none, some, Option-cases, inl, inr,
  update, ok, fault, memset,
}
use dpdk_udp_receiver.Dpdk.{Dpdk}
use dpdk_udp_receiver.Channel.{Frame, Channel, pack_num, index_size}
use dpdk_udp_receiver.Assemble.{up}
use dpdk_udp_receiver.Align.{Wait}
use dpdk_udp_receiver.Send.{Sender, send, send_frame, give_back}
use dpdk_udp_receiver.Pipeline.Life.{IsEmpty, Move, give}
use dpdk_udp_receiver.Pipeline.View.{life, stay_at}

-- A frame with its count and flags cleared.
abbrev cleared : Frame → Frame
cleared g = record g { count = 0; flags = memset g.flags 0 false pack_num }

cleared-IsEmpty : (g : Frame) → IsEmpty (cleared g)
cleared-IsEmpty g = record { no_packets = refl; no_flags = λ i h. ground arith }

module _ (d : Dpdk) where
  sent_channel :
      (f : ℕ) (c c' : Channel d) (s s' : Sender)
      → send_frame d f (c, s) ≡ ok (c', s')
      → record c {
        frames = update c.frames f (cleared (c.frames f));
        index = update c.index (c.frames f).frame_seq none;
        frame_pool = d.put f c.frame_pool;
        sent_frame = up c.sent_frame;
      }
        ≡ c'
  unfolding send_frame give_back
  sent_channel f c c' s s' e = ground arith

  pub send-Move :
      (c c' : Channel d) (s s' : Sender) (w : Option Wait)
      → send d (c, s) ≡ ok (c', s')
      → Move d (life d c w) (life d c' w)
  unfolding send
  send-Move c c' s s' w e = elim (Option-cases (d.dequeue c.ring3_4)) [
    | inl empty ↦ let same : c ≡ c' = ground arith in stay_at (ap (λ z. life d z w) same)
    | inr ((f, rest), got) ↦
        subst (λ z. Move d (life d c w) (life d z w))
          (sent_channel f (record c { ring3_4 = rest }) c' s s' (ground arith))
          (give f rest (cleared (c.frames f)) got (cleared-IsEmpty (c.frames f)) refl)
  ]

  pub send-ne-fault :
      (c : Channel d) (s : Sender)
      → ((f : ℕ) (rest : d.Ring)
          → d.dequeue c.ring3_4 ≡ some (f, rest)
          → (c.frames f).frame_seq < index_size)
      → send d (c, s) ≢ fault
  unfolding send send_frame give_back
  send-ne-fault c s h = elim (Option-cases (d.dequeue c.ring3_4)) [
    | inl empty ↦ ground arith
    | inr ((f, rest), got) ↦ ground (arith, h f rest got)
  ]
