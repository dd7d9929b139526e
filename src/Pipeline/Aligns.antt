-- ===== src/Pipeline/Aligns.antt =====
-- A round of the align thread moves at most one frame, in a way that `Life` allows.
use dpdk_udp_receiver.Common.{
  ℕ, zero, suc, ◌+◌, ◌≡◌, ◌∙◌, refl, arith, subst, ◌&&◌, Option, none, some, ltb, Option-cases,
  Bool-cases, inl, inr, update_same,
}
use dpdk_udp_receiver.Dpdk.{Dpdk}
use dpdk_udp_receiver.Channel.{Config, Frame, Channel, pack_num}
use dpdk_udp_receiver.Align.{Wait, align, check, pass_on, drop_frame, zero_rows, timed_out}
use dpdk_udp_receiver.Pipeline.Life.{Move, take_up, pass, stay}
use dpdk_udp_receiver.Pipeline.View.{life}

pub frame_seq-zero_rows : (n i : ℕ) (f : Frame) → (zero_rows n i f).frame_seq ≡ f.frame_seq
unfolding zero_rows
frame_seq-zero_rows zero i f = refl
frame_seq-zero_rows (suc n) i f = frame_seq-zero_rows n (i + 1) _ ∙ ground arith

module _ (cfg : Config) (d : Dpdk) where
  complete-Move :
      (w : Wait) (c : Channel d)
      → Move d (life d c (some w)) (life d (pass_on cfg d w.frame c) none)
  unfolding pass_on
  complete-Move w c =
      subst (Move d (life d c (some w)))
        (λ i.
          life d
            (record c {
              frames = update_same c.frames w.frame i;
              ring3_4 = (d.enqueue w.frame c.ring3_4).1;
            })
            none)
        (pass w.frame (c.frames w.frame) refl refl)

  dropped-Move :
      (w : Wait) (c : Channel d)
      → Move d
          (life d c (some w))
          (life d (pass_on cfg d w.frame (drop_frame cfg d w.frame c)) none)
  unfolding pass_on drop_frame
  dropped-Move w c =
      pass w.frame (zero_rows pack_num 0 (c.frames w.frame)) refl
        (frame_seq-zero_rows pack_num 0 (c.frames w.frame))

  check-Move :
      (tsc : ℕ) (w : Wait) (c : Channel d)
      → Move d (life d c (some w)) (life d (check cfg d tsc w c).0 (check cfg d tsc w c).1)
  unfolding check
  check-Move tsc w c =
      elim (Bool-cases (ltb (c.frames w.frame).count (c.frames w.frame).packet_num)) [
        | inl short ↦ elim (Bool-cases (cfg.drop && timed_out w.prev_tsc tsc)) [
          | inl late ↦ rw (short, late) (dropped-Move w c)
          | inr early ↦ rw (short, early) stay
        ]
        | inr full ↦ rw full (complete-Move w c)
      ]

  pub align-Move :
      (tsc : ℕ) (c : Channel d) (w : Option Wait)
      → let (c', w') = align cfg d tsc (c, w) in Move d (life d c w) (life d c' w')
  unfolding align
  align-Move tsc c none = elim (Option-cases (d.dequeue c.ring2_3)) [
    | inl empty ↦ rw (empty, align) stay
    | inr ((f, rest), got) ↦ rw (got, align) (take_up f rest refl got)
  ]
  align-Move tsc c (some w) = check-Move tsc w c
