-- ===== src/Assemble/Frames.antt =====
-- The packets of one frame, taken in any order, build the frame.
use dpdk_udp_receiver.Common.{
  ℕ, ◌+◌, ◌%◌, ◌^◌, ◌<◌, ◌≡◌, ◌≢◌, refl, sym, ◌∙◌, ap, arith, none, some, List, [], ◌∷◌, true,
  length, update_self, if◌then◌else◌, All, Result, ok, update,
}
use dpdk_udp_receiver.Dpdk.{Dpdk}
use dpdk_udp_receiver.Channel.{Config, Packet, Frame, Channel, pack_num}
use dpdk_udp_receiver.Assemble.{
  Consumer, up, fill_frame, open_frame, open_tmp, take_frame, assemble, assemble_all,
}
use dpdk_udp_receiver.Assemble.Copy.{
  IsValid, Holds, copied, copy_packet-valid, copied-Holds, copied-keeps-Holds,
}

-- No packet of the list is for the row of `q`.
abbrev pub Apart : Packet → List Packet → Type 0
Apart q = All (λ p. q.packet_seq ≢ p.packet_seq)

-- The packets are for rows of their own.
abbrev pub Separate : List Packet → Type 0
Separate [] = Unit
Separate (p ∷ ps) = Apart p ps × Separate ps

-- The packets are valid, and are for the frame with the sequence number `s`.
abbrev pub Belong : ℕ → List Packet → Type 0
Belong s = All (λ p. IsValid p × (p.frame_seq ≡ s))

module _ (cfg : Config) (d : Dpdk) where
  -- What a run over `ps` does to the frame `f` of the channel `c`.
  pub record Filled (f : ℕ) (ps : List Packet) (c : Channel d) (k : Consumer)
      (r : Result (Channel d × Consumer)) : Type 0 where
    pub end : Channel d
    pub returns : r ≡ ok (end, k)
    pub same_index : end.index ≡ c.index
    pub same_ring : end.ring2_3 ≡ c.ring2_3
    pub same_passed : end.ring3_4 ≡ c.ring3_4
    pub same_pool : end.frame_pool ≡ c.frame_pool
    pub same_seq : (end.frames f).frame_seq ≡ (c.frames f).frame_seq
    pub same_num : (end.frames f).packet_num ≡ (c.frames f).packet_num
    pub same_flags : (end.frames f).flags ≡ (c.frames f).flags
    pub counted : (end.frames f).count ≡ ((c.frames f).count + length ps) % 2 ^ 32
    pub kept : (q : Packet) → IsValid q → Apart q ps → Holds (c.frames f) q → Holds (end.frames f) q
    pub held : All (Holds (end.frames f)) ps

  -- The channel after a later packet.
  abbrev pub filled : Packet → ℕ → Channel d → Channel d
  filled p f c =
      let g = copied p (c.frames f) in
      record c { frames = update c.frames f (record g { count = up g.count }) }

  assemble-filled :
      (p : Packet) (f : ℕ) (c : Channel d) (k : Consumer)
      → IsValid p
      → c.index p.frame_seq ≡ some f
      → assemble cfg d p (c, k) ≡ ok (filled p f c, k)
  unfolding assemble fill_frame
  assemble-filled p f c k v e = rw (e, copy_packet-valid p (c.frames f) v)

  filled_frame :
      (p : Packet) (f : ℕ) (c : Channel d)
      → (filled p f c).frames f ≡ (let g = copied p (c.frames f) in record g { count = up g.count })
  filled_frame p f c = update_self c.frames f _

  Filled-cons :
      (p : Packet) (ps : List Packet) (f : ℕ) (c : Channel d) (k : Consumer)
      {r : Result (Channel d × Consumer)}
      → IsValid p
      → Apart p ps
      → Filled f ps (filled p f c) k r
      → Filled f (p ∷ ps) c k r
  Filled-cons p ps f c k v apart rest = record {
    end = rest.end;
    returns = rest.returns;
    same_index = rest.same_index;
    same_ring = rest.same_ring;
    same_passed = rest.same_passed;
    same_pool = rest.same_pool;
    same_seq = rest.same_seq ∙ ap (λ g. g.frame_seq) (filled_frame p f c);
    same_num = rest.same_num ∙ ap (λ g. g.packet_num) (filled_frame p f c);
    same_flags = rest.same_flags ∙ ap (λ g. g.flags) (filled_frame p f c);
    counted = omega (arith, rest.counted, ap (λ g. g.count) (filled_frame p f c));
    kept = λ q vq a h.
        rest.kept q vq a.1
          (rw (filled_frame p f c) (copied-keeps-Holds p q (c.frames f) v vq (λ e. a.0 (sym e)) h));
    held = (rest.kept p v apart (rw (filled_frame p f c) (copied-Holds p (c.frames f))), rest.held);
  }

  assemble_all-Filled :
      (ps : List Packet) (s f : ℕ) (c : Channel d) (k : Consumer)
      → c.index s ≡ some f
      → (c.frames f).count < 2 ^ 32
      → Belong s ps
      → Separate ps
      → Filled f ps c k (assemble_all cfg d ps (c, k))
  unfolding assemble_all
  assemble_all-Filled [] s f c k at small b sep = record {
    end = c;
    returns = refl;
    same_index = refl;
    same_ring = refl;
    same_passed = refl;
    same_pool = refl;
    same_seq = refl;
    same_num = refl;
    same_flags = refl;
    counted = omega arith;
    kept = λ q v a h. h;
    held = tt;
  }
  assemble_all-Filled (p ∷ ps) s f c k at small b sep =
      rw (assemble-filled p f c k b.0.0 (rw b.0.1 at)) (
        Filled-cons p ps f c k b.0.0 sep.0 (
          assemble_all-Filled ps s f (filled p f c) k at (rw (filled_frame p f c) (omega arith)) b.1
            sep.1))

  -- The frame that the first packet gets, and the channel with it.
  abbrev pub opening : Packet → Frame → Frame
  opening p fresh =
      let g = copied p (record fresh { count = up fresh.count }) in
      record g {
        packet_num = pack_num;
        frame_seq = p.frame_seq;
        flags = if cfg.drop then update g.flags p.packet_seq true else g.flags;
      }

  abbrev pub opened : Packet → ℕ → d.Pool → Channel d → Channel d
  opened p f m c = record c {
    frame_pool = m;
    index = update c.index p.frame_seq (some f);
    frames = update c.frames f (opening p (c.frames f));
    ring2_3 = (d.enqueue f c.ring2_3).1;
  }

  take_frame-some :
      (f : ℕ) (m : d.Pool) (c : Channel d) (k : Consumer)
      → d.get c.frame_pool ≡ some (f, m)
      → take_frame cfg d (c, k) ≡ (record c { frame_pool = m }, record k { tmp_frame = some f })
  unfolding take_frame
  take_frame-some f m c k got = rw (got, take_frame)

  pub open_frame-opened :
      (p : Packet) (f : ℕ) (m : d.Pool) (c : Channel d)
      → IsValid p
      → open_frame cfg d p f (record c { frame_pool = m }) ≡ ok (opened p f m c)
  unfolding open_frame
  open_frame-opened p f m c v =
      rw (copy_packet-valid p (record (c.frames f) { count = up (c.frames f).count }) v)

  assemble-opened :
      (p : Packet) (f : ℕ) (m : d.Pool) (c : Channel d) (k : Consumer)
      → IsValid p
      → c.index p.frame_seq ≡ none
      → d.get c.frame_pool ≡ some (f, m)
      → assemble cfg d p (c, k) ≡ ok (opened p f m c, record k { tmp_frame = some f })
  unfolding assemble open_tmp
  assemble-opened p f m c k v e got =
      rw (e, take_frame-some f m c k got, open_frame-opened p f m c v)

  -- What the packets `ps` of the frame `s`, from the first on, make of an empty frame `f`.
  pub record Assembled (f s : ℕ) (p : Packet) (ps : List Packet) (c : Channel d) (k : Consumer)
      (r : Result (Channel d × Consumer)) : Type 0 where
    pub end : Channel d
    pub returns : r ≡ ok (end, record k { tmp_frame = some f })
    pub indexed : end.index ≡ update c.index s (some f)
    pub announced : end.ring2_3 ≡ (d.enqueue f c.ring2_3).1
    pub passed : end.ring3_4 ≡ c.ring3_4
    pub taken : d.get c.frame_pool ≡ some (f, end.frame_pool)
    pub named : (end.frames f).frame_seq ≡ s
    pub sized : (end.frames f).packet_num ≡ pack_num
    pub counted : (end.frames f).count ≡ length (p ∷ ps) % 2 ^ 32
    pub held : All (Holds (end.frames f)) (p ∷ ps)
    pub flagged :
        cfg.drop ≡ true → (end.frames f).flags ≡ update (c.frames f).flags p.packet_seq true

  opened_frame :
      (p : Packet) (f : ℕ) (m : d.Pool) (c : Channel d)
      → (opened p f m c).frames f ≡ opening p (c.frames f)
  opened_frame p f m c = update_self c.frames f _

  Filled-Assembled :
      (p : Packet) (ps : List Packet) (s f : ℕ) (m : d.Pool) (c : Channel d) (k : Consumer)
      {r : Result (Channel d × Consumer)}
      → d.get c.frame_pool ≡ some (f, m)
      → (c.frames f).count ≡ 0
      → IsValid p × (p.frame_seq ≡ s)
      → Apart p ps
      → Filled f ps (opened p f m c) (record k { tmp_frame = some f }) r
      → Assembled f s p ps c k r
  Filled-Assembled p ps s f m c k got empty v apart rest = record {
    end = rest.end;
    returns = rest.returns;
    indexed = rest.same_index ∙ ap (λ i. update c.index i (some f)) v.1;
    announced = rest.same_ring;
    passed = rest.same_passed;
    taken = rw rest.same_pool got;
    named = rest.same_seq ∙ ap (λ g. g.frame_seq) (opened_frame p f m c) ∙ v.1;
    sized = rest.same_num ∙ ap (λ g. g.packet_num) (opened_frame p f m c);
    counted = omega (arith, rest.counted, ap (λ g. g.count) (opened_frame p f m c), empty);
    held = (
      rest.kept p v.0 apart (
          rw (opened_frame p f m c)
            (copied-Holds p (record (c.frames f) { count = up (c.frames f).count }))),
      rest.held,
    );
    flagged = λ e. rest.same_flags ∙ ap (λ g. g.flags) (opened_frame p f m c) ∙ rw e;
  }

  -- The first packet of a frame takes an empty frame from the pool, and it and the packets after
  -- it, valid and for rows of their own, in whatever order they come, all end up in that frame: the
  -- index leads to it, it is announced to the align thread once, its count is the number of
  -- packets, and each payload stands in its row; the ring of the send thread is as it was. Under
  -- DROP, of its flags only that of the first packet's row is set.
  pub assemble_all-Assembled :
      (p : Packet) (ps : List Packet) (s f : ℕ) (m : d.Pool) (c : Channel d) (k : Consumer)
      → c.index s ≡ none
      → d.get c.frame_pool ≡ some (f, m)
      → (c.frames f).count ≡ 0
      → Belong s (p ∷ ps)
      → Separate (p ∷ ps)
      → Assembled f s p ps c k (assemble_all cfg d (p ∷ ps) (c, k))
  unfolding assemble_all
  assemble_all-Assembled p ps s f m c k free got empty b sep =
      rw (assemble-opened p f m c k b.0.0 (rw b.0.1 free) got) (
        Filled-Assembled p ps s f m c k got empty b.0 sep.0 (
          assemble_all-Filled ps s f (opened p f m c) (record k { tmp_frame = some f })
            (rw (b.0.1) (update_self c.index s (some f)))
            (omega (arith, ap (λ g. g.count) (opened_frame p f m c), empty)) b.1 sep.1))
