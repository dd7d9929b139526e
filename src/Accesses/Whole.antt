-- ===== src/Accesses/Whole.antt =====
-- A consumer that nobody interrupts: its accesses for a packet, one after the other, are those of
-- `Assemble`.
use dpdk_udp_receiver.Common.{
  ℕ, zero, suc, ◌≡◌, ◌≢◌, ◌∙◌, refl, sym, ap, Bool-cases, Option, Option-cases, none, some, inl,
  inr, Result, ok, fault, panic, ◌>>=◌, update, update_self, ◌==◌, true, if◌then◌else◌,
}
use mathlib.Core.Path.{fun_ext, ◌≡⟨◌⟩◌, ◌∎}
use dpdk_udp_receiver.Dpdk.{Dpdk}
use dpdk_udp_receiver.Channel.{Config, Packet, Frame, Channel, pack_num}
use dpdk_udp_receiver.Assemble.{
  Consumer, up, copy_packet, open_frame, fill_frame, take_frame, open_tmp, assemble,
}
use dpdk_udp_receiver.Accesses.{
  Point, away, asks, gets, opens, announces, fills, adds, Taking, add_one, through, new_frame, ask,
  get_frame, open_new, announce, access_at, consumer_access,
}
use dpdk_udp_receiver.Accesses.Slots.{through-some}

-- A slot that is written twice holds what was written last.
pub update-update {ℓ} :
    {A : Type ℓ} (f : ℕ → A) (i : ℕ) (v w : A) → update (update f i v) i w ≡ update f i w
update-update f i v w =
    fun_ext λ j. elim (Bool-cases (i == j)) [ inl e ↦ rw e refl | inr e ↦ rw e refl ]

module _ (cfg : Config) (d : Dpdk) where
  -- The accesses of the consumer until it has done with its packet, `n` at most.
  unfoldable pub consumer_alone : ℕ → Channel d × Taking → Result (Channel d × Taking)
  consumer_alone zero s = ok s
  consumer_alone (suc n) (c, t) = elim t.place [
    | away ↦ ok (c, t)
    | _ ↦ consumer_access cfg d (c, t) >>= consumer_alone n
  ]

  abbrev pub at : Point → Packet → Consumer → Taking
  at l p k = record { place = l; packet = p; locals = k }

  abbrev pub done : Packet → Channel d × Consumer → Result (Channel d × Taking)
  done p s = ok (s.0, at away p s.1)

  alone_busy :
      (n : ℕ) (l : Point) (c : Channel d) (p : Packet) (k : Consumer)
      (r : Result (Channel d × Taking))
      → l ≢ away
      → access_at cfg d l (c, at l p k) ≡ r
      → consumer_alone (suc n) (c, at l p k) ≡ (r >>= consumer_alone n)
  unfolding consumer_alone consumer_access
  alone_busy n away c p k r busy e = absurd (busy refl)
  alone_busy n asks c p k r busy e = ap (λ z. z >>= consumer_alone n) e
  alone_busy n gets c p k r busy e = ap (λ z. z >>= consumer_alone n) e
  alone_busy n opens c p k r busy e = ap (λ z. z >>= consumer_alone n) e
  alone_busy n announces c p k r busy e = ap (λ z. z >>= consumer_alone n) e
  alone_busy n fills c p k r busy e = ap (λ z. z >>= consumer_alone n) e
  alone_busy n adds c p k r busy e = ap (λ z. z >>= consumer_alone n) e

  alone_done :
      (n : ℕ) (c : Channel d) (p : Packet) (k : Consumer)
      → consumer_alone n (c, at away p k) ≡ ok (c, at away p k)
  unfolding consumer_alone
  alone_done zero c p k = refl
  alone_done (suc n) c p k = refl

  through_lem :
      (s f : ℕ) (c : Channel d) (write : Frame → Result Frame)
      → c.index s ≡ some f
      → through d s write c
        ≡ (write (c.frames f) >>= λ g. ok (record c { frames = update c.frames f g }))
  unfolding through
  through_lem s f c write has = rw (has, through) refl

  add_alone :
      (p : Packet) (f : ℕ) (g : Frame) (c : Channel d) (k : Consumer)
      → c.index p.frame_seq ≡ some f
      → consumer_alone 2 (record c { frames = update c.frames f g }, at adds p k)
        ≡ done p (record c { frames = update c.frames f (record g { count = up g.count }) }, k)
  unfolding access_at add_one
  add_alone p f g c k has =
      let c' : Channel d = record c { frames = update c.frames f g } in
      let g' : Frame = record (c'.frames f) { count = up (c'.frames f).count } in
      consumer_alone 2 (c', at adds p k)
      ≡⟨ alone_busy 1 adds c' p k _ (λ e. cc)
          (ap (λ z. z >>= λ (x : Channel d). ok (x, at away p k))
            (through-some d c' p.frame_seq f add_one g' has refl)) ⟩
        consumer_alone 1 (record c { frames = update c'.frames f g' }, at away p k)
      ≡⟨ alone_done 1 _ p k ⟩ done p (record c { frames = update c'.frames f g' }, k)
      ≡⟨ ap (λ (v : ℕ → Frame). done p (record c { frames = v }, k))
          (update-update c.frames f g g') ⟩
        done p (record c { frames = update c.frames f g' }, k)
      ≡⟨ ap
          (λ (v : Frame).
            done p (record c { frames = update c.frames f (record v { count = up v.count }) }, k))
          (update_self c.frames f g) ⟩
        done p (record c { frames = update c.frames f (record g { count = up g.count }) }, k) ∎

  filled_alone :
      (p : Packet) (f : ℕ) (c : Channel d) (k : Consumer) (r : Result Frame)
      → c.index p.frame_seq ≡ some f
      → (r
          >>= (λ g. ok (record c { frames = update c.frames f g }))
          >>= (λ c'. ok (c', at adds p k))
          >>= consumer_alone 2)
        ≡ (r
            >>= (λ g.
                ok (record c { frames = update c.frames f (record g { count = up g.count }) }))
            >>= (λ c'. done p (c', k)))
  filled_alone p f c k fault has = refl
  filled_alone p f c k panic has = refl
  filled_alone p f c k (ok g) has = add_alone p f g c k has

  fill_alone :
      (p : Packet) (f : ℕ) (c : Channel d) (k : Consumer)
      → c.index p.frame_seq ≡ some f
      → consumer_alone 3 (c, at fills p k) ≡ (fill_frame cfg d p f c >>= λ c'. done p (c', k))
  unfolding fill_frame access_at
  fill_alone p f c k has =
      alone_busy 2 fills c p k _ (λ q. cc)
        (ap (λ z. z >>= λ (x : Channel d). ok (x, at adds p k))
          (through_lem p.frame_seq f c (copy_packet p) has))
      ∙ filled_alone p f c k (copy_packet p (c.frames f)) has

  announce_alone :
      (p : Packet) (f : ℕ) (c : Channel d) (k : Consumer)
      → c.index p.frame_seq ≡ some f
      → consumer_alone 1 (c, at announces p k)
        ≡ done p (record c { ring2_3 = (d.enqueue f c.ring2_3).1 }, k)
  unfolding announce access_at
  announce_alone p f c k has =
      alone_busy 0 announces c p k
        (ok (record c { ring2_3 = (d.enqueue f c.ring2_3).1 }, at away p k)) (λ q. cc)
        (rw (has, announce) refl)
      ∙ alone_done 0 _ p k

  opened_alone :
      (p : Packet) (f : ℕ) (c : Channel d) (k : Consumer) (r : Result Frame)
      → (v : Frame → Frame)
      → (r
          >>= (λ g. ok (record c {
            index = update c.index p.frame_seq (some f);
            frames = update c.frames f (v g);
          }))
          >>= (λ c'. ok (c', at announces p k))
          >>= consumer_alone 1)
        ≡ (r
            >>= (λ g. ok (record c {
              index = update c.index p.frame_seq (some f);
              frames = update c.frames f (v g);
              ring2_3 = (d.enqueue f c.ring2_3).1;
            }))
            >>= (λ c'. done p (c', k)))
  opened_alone p f c k fault v = refl
  opened_alone p f c k panic v = refl
  opened_alone p f c k (ok g) v =
      announce_alone p f
        (record c { index = update c.index p.frame_seq (some f); frames = update c.frames f (v g) })
        k (update_self c.index p.frame_seq (some f))

  open_new-some :
      (p : Packet) (f : ℕ) (c : Channel d) (k : Consumer)
      → k.tmp_frame ≡ some f
      → open_new cfg d (c, at opens p k)
        ≡ (new_frame cfg d p f c >>= λ c'. ok (c', at announces p k))
  unfolding open_new
  open_new-some p f c k is = simp is

  open_alone :
      (p : Packet) (f : ℕ) (c : Channel d) (k : Consumer)
      → k.tmp_frame ≡ some f
      → consumer_alone 2 (c, at opens p k) ≡ (open_frame cfg d p f c >>= λ c'. done p (c', k))
  unfolding open_frame new_frame access_at
  open_alone p f c k is =
      alone_busy 1 opens c p k (new_frame cfg d p f c >>= λ c'. ok (c', at announces p k)) (λ q. cc)
        (open_new-some p f c k is)
      ∙ opened_alone p f c k (copy_packet p (record (c.frames f) { count = up (c.frames f).count }))
          (λ g. record g {
            packet_num = pack_num;
            frame_seq = p.frame_seq;
            flags = if cfg.drop then update g.flags p.packet_seq true else g.flags;
          })

  regroup :
      (p : Packet) (k : Consumer) (r : Result (Channel d))
      → (r >>= (λ c'. ok (c', k)) >>= done p) ≡ (r >>= λ c'. done p (c', k))
  regroup p k fault = refl
  regroup p k panic = refl
  regroup p k (ok c') = refl

  open_tmp-some :
      (p : Packet) (f : ℕ) (c : Channel d) (k : Consumer)
      → k.tmp_frame ≡ some f
      → (open_tmp cfg d p (c, k) >>= done p) ≡ (open_frame cfg d p f c >>= λ c'. done p (c', k))
  unfolding open_tmp
  open_tmp-some p f c k is = simp is (regroup p k (open_frame cfg d p f c))

  got_alone :
      (p : Packet) (c : Channel d) (k : Consumer) (o : Option ℕ)
      → (take_frame cfg d (c, k)).1.tmp_frame ≡ o
      → consumer_alone 3 (c, at gets p k) ≡ (open_tmp cfg d p (take_frame cfg d (c, k)) >>= done p)
  unfolding get_frame open_tmp access_at
  got_alone p c k none is =
      alone_busy 2 gets c p k panic (λ q. cc) (rw (is, get_frame) refl) ∙ rw (is, open_tmp) refl
  got_alone p c k (some f) is =
      let s = take_frame cfg d (c, k) in
      alone_busy 2 gets c p k (ok (s.0, at opens p s.1)) (λ q. cc) (rw (is, get_frame) refl)
      ∙ open_alone p f s.0 s.1 is
      ∙ sym (open_tmp-some p f s.0 s.1 is)

  -- The accesses of the consumer for a packet, uninterrupted, are `assemble`.
  pub consumer_alone-assemble :
      (p : Packet) (c : Channel d) (k : Consumer)
      → consumer_alone 4 (c, at asks p k) ≡ (assemble cfg d p (c, k) >>= done p)
  unfolding assemble ask access_at
  consumer_alone-assemble p c k = elim (Option-cases (c.index p.frame_seq)) [
    | inl empty ↦
        alone_busy 3 asks c p k (ok (c, at gets p k)) (λ q. cc) (rw (empty, ask) refl)
        ∙ got_alone p c k (take_frame cfg d (c, k)).1.tmp_frame refl
        ∙ rw (empty, assemble) refl
    | inr (f, has) ↦
        alone_busy 3 asks c p k (ok (c, at fills p k)) (λ q. cc) (rw (has, ask) refl)
        ∙ fill_alone p f c k has
        ∙ rw (has, assemble) (sym (regroup p k (fill_frame cfg d p f c)))
  ]
