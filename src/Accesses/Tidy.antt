-- ===== src/Accesses/Tidy.antt =====
-- Frames sorted by how far they have come, and the writes to the index and to a frame that keep
-- this order: what the accesses of `Accesses` have in common.
use dpdk_udp_receiver.Common.{
  ℕ, ◌<◌, ◌≤◌, ◌≡◌, ◌≢◌, arith, Bool, true, Option, none, some, update, update_ne, Bool-cases, inl,
  inr, ◌==◌, ==_iff,
}
use dpdk_udp_receiver.Channel.{Frame, pack_num}
use dpdk_udp_receiver.Pipeline.Life.{IsEmpty}

-- A frame that has been opened for a sequence number.
pub record IsNamed (g : Frame) : Type 0 where
  pub full_size : g.packet_num ≡ pack_num
  pub small : g.frame_seq < 65536

-- How often a frame is anywhere, in use under its number, complete and not yet emptied, and free
-- or emptied.
pub record Tally : Type 0 where
  pub all : ℕ → ℕ
  pub linked : ℕ → ℕ
  pub full : ℕ → ℕ
  pub empty : ℕ → ℕ

-- Where it is `strict`, frames that are complete or empty are so by their counts.
pub record IsTidy (strict : Bool) (index : ℕ → Option ℕ) (frames : ℕ → Frame) (t : Tally)
    : Type 0 where
  pub once : (f : ℕ) → t.all f ≤ 1
  pub listed : (s f : ℕ) → index s ≡ some f → ((frames f).frame_seq ≡ s) × (0 < t.linked f)
  pub found : (f : ℕ) → 0 < t.linked f → (index (frames f).frame_seq ≡ some f) × IsNamed (frames f)
  pub filled : strict ≡ true → (f : ℕ) → 0 < t.full f → pack_num ≤ (frames f).count
  pub cleared : strict ≡ true → (f : ℕ) → 0 < t.empty f → IsEmpty (frames f)

module _ (strict : Bool) (index : ℕ → Option ℕ) (frames : ℕ → Frame) (t u : Tally)
    (h : IsTidy strict index frames t) where
  -- A frame goes from one place to the next, and nothing is written.
  pub shift-IsTidy :
      ((f : ℕ) → u.all f ≤ t.all f)
      → ((f : ℕ) → u.linked f ≡ t.linked f)
      → (strict ≡ true → (f : ℕ) → 0 < u.full f → pack_num ≤ (frames f).count)
      → ((f : ℕ) → u.empty f ≤ t.empty f)
      → IsTidy strict index frames u
  shift-IsTidy less same enough none_new = record {
    once = λ f. omega (arith, less f, h.once f);
    listed = λ s f e. ((h.listed s f e).0, omega (arith, same f, h.listed s f e));
    found = λ f p. h.found f (omega (arith, same f, p));
    filled = enough;
    cleared = λ s f p. h.cleared s f (omega (arith, none_new f, p));
  }

  -- The fields of the frame `f` are written, but for its number and its size.
  pub write-IsTidy :
      (f : ℕ) (g : Frame)
      → g.frame_seq ≡ (frames f).frame_seq
      → g.packet_num ≡ (frames f).packet_num
      → ((o : ℕ) → u.all o ≤ t.all o)
      → ((o : ℕ) → u.linked o ≡ t.linked o)
      → (strict ≡ true → (o : ℕ) → u.full o ≤ t.full o)
      → (strict ≡ true → u.full f ≡ 0)
      → ((o : ℕ) → f ≢ o → u.empty o ≤ t.empty o)
      → (strict ≡ true → 0 < u.empty f → IsEmpty g)
      → IsTidy strict index (update frames f g) u
  write-IsTidy f g named sized less same fewer not_full none_new new = record {
    once = λ o. omega (arith, less o, h.once o);
    listed = λ s o e. ground (arith, same o, h.listed s o e, ==_iff f o);
    found = λ o p. elim (Bool-cases (f == o)) [
      | inl e ↦
          let at : f ≡ o = (==_iff f o).0 e in
          let was : 0 < t.linked f = ground (arith, same o) in
          rw e (
            ground (arith, h.found f was),
            record {
              full_size = ground (arith, (h.found f was).1.full_size);
              small = ground (arith, (h.found f was).1.small);
            },
          )
      | inr e ↦ rw e (h.found o (omega (arith, same o, p)))
    ];
    filled = λ s o p.
        let other : f ≢ o = λ e. ground (arith, not_full s) in
        rw (update_ne frames f o g other) (h.filled s o (omega (arith, fewer s o, p)));
    cleared = λ s o p. elim (Bool-cases (f == o)) [
      | inl e ↦ let at : f ≡ o = (==_iff f o).0 e in rw e (new s (ground arith))
      | inr e ↦
          let other : f ≢ o = λ q. ground (arith, ==_iff f o) in
          rw e (h.cleared s o (omega (arith, none_new o other, p)))
    ];
  }

  -- The frame `f`, free before, is opened for the number `s`.
  pub open-IsTidy :
      (s f : ℕ) (g : Frame)
      → index s ≡ none
      → g.frame_seq ≡ s
      → IsNamed g
      → t.linked f ≡ 0
      → u.linked f ≡ 1
      → u.full f ≡ 0
      → u.empty f ≡ 0
      → ((o : ℕ) → u.all o ≤ t.all o)
      → ((o : ℕ) → f ≢ o → u.linked o ≡ t.linked o)
      → ((o : ℕ) → f ≢ o → u.full o ≤ t.full o)
      → ((o : ℕ) → f ≢ o → u.empty o ≤ t.empty o)
      → IsTidy strict (update index s (some f)) (update frames f g) u
  open-IsTidy s f g free named new was is not_full not_empty less same fewer none_new = record {
    once = λ o. omega (arith, less o, h.once o);
    listed = λ r o e. elim (Bool-cases (f == o)) [
      | inl at ↦ ground (arith, ==_iff f o, ==_iff s r, h.listed r f)
      | inr ne ↦
          let other : f ≢ o = λ q. ground (arith, ==_iff f o) in
          ground (arith, same o other, h.listed r o)
    ];
    found = λ o p. elim (Bool-cases (f == o)) [
      | inl e ↦ let at : f ≡ o = (==_iff f o).0 e in rw e (ground arith, new)
      | inr e ↦
          let other : f ≢ o = λ q. ground (arith, ==_iff f o) in
          let old = h.found o (omega (arith, same o other, p)) in
          rw e (ground (arith, old.0), old.1)
    ];
    filled = λ s o p.
        let other : f ≢ o = λ e. ground arith in
        rw (update_ne frames f o g other) (h.filled s o (omega (arith, fewer o other, p)));
    cleared = λ s o p.
        let other : f ≢ o = λ e. ground arith in
        rw (update_ne frames f o g other) (h.cleared s o (omega (arith, none_new o other, p)));
  }

  -- The frame `f` leaves the index.
  pub unlink-IsTidy :
      (f : ℕ)
      → 0 < t.linked f
      → u.linked f ≡ 0
      → ((o : ℕ) → u.all o ≤ t.all o)
      → ((o : ℕ) → f ≢ o → u.linked o ≡ t.linked o)
      → ((o : ℕ) → u.full o ≤ t.full o)
      → ((o : ℕ) → u.empty o ≤ t.empty o)
      → IsTidy strict (update index (frames f).frame_seq none) frames u
  unlink-IsTidy f was is less same fewer none_new = record {
    once = λ o. omega (arith, less o, h.once o);
    listed = λ s o e.
        let old : index s ≡ some o = ground arith in
        let other : f ≢ o = λ q. ground (arith, h.listed s o old) in
        ((h.listed s o old).0, omega (arith, same o other, h.listed s o old));
    found = λ o p.
        let other : f ≢ o = λ q. ground arith in
        let old = h.found o (omega (arith, same o other, p)) in
        (ground (arith, old.0, h.found f was), old.1);
    filled = λ s o p. h.filled s o (omega (arith, fewer o, p));
    cleared = λ s o p. h.cleared s o (omega (arith, none_new o, p));
  }
