-- ===== src/Accesses/Spread.antt =====
-- Where the frames of a channel are while its threads stand at their places, counted, and what
-- holds of them between two accesses.
use dpdk_udp_receiver.Common.{
  ℕ, Bool, true, ◌+◌, ◌<◌, ◌≤◌, ◌≡◌, Option, none, some, [], ◌∷◌, times, length,
}
use dpdk_udp_receiver.Dpdk.{Dpdk}
use dpdk_udp_receiver.Channel.{Packet, Frame, Channel, pack_num}
use dpdk_udp_receiver.Assemble.{Consumer}
use dpdk_udp_receiver.Assemble.Copy.{IsValid}
use dpdk_udp_receiver.Pipeline.View.{AreBytes}
use dpdk_udp_receiver.Accesses.{
  Point, away, asks, gets, opens, announces, fills, adds, Aligning, seeks, tests, cleans, passes,
  Sending, idles, builds, empties, clears, puts, Threads,
}
use dpdk_udp_receiver.Accesses.Tidy.{Tally, IsTidy}

abbrev pub held : ℕ → Option ℕ → ℕ
held o none = 0
held o (some f) = times o (f ∷ [])

abbrev pub size : Option ℕ → ℕ
size none = 0
size (some f) = 1

-- The frame that the consumer got and has not opened, and the one that it opened and has not
-- announced.
abbrev pub fresh : Point → Option ℕ → Option ℕ
fresh away tmp = none
fresh asks tmp = none
fresh gets tmp = none
fresh opens tmp = tmp
fresh announces tmp = none
fresh fills tmp = none
fresh adds tmp = none

abbrev pub opened : Point → Option ℕ → Option ℕ
opened away tmp = none
opened asks tmp = none
opened gets tmp = none
opened opens tmp = none
opened announces tmp = tmp
opened fills tmp = none
opened adds tmp = none

-- The frame that the consumer writes to next: the one that it got, for a first packet, and for a
-- later packet the one in its slot of the index.
abbrev pub copying : Point → Option ℕ → Option ℕ → Option ℕ
copying away tmp slot = none
copying asks tmp slot = none
copying gets tmp slot = none
copying opens tmp slot = tmp
copying announces tmp slot = none
copying fills tmp slot = slot
copying adds tmp slot = slot

-- The frame that the align thread waits for, and the one that it passes on.
abbrev pub tested : Aligning → Option ℕ
tested seeks = none
tested (tests w) = some w.frame
tested (cleans f) = some f
tested (passes f) = none

abbrev pub passing : Aligning → Option ℕ
passing seeks = none
passing (tests w) = none
passing (cleans f) = none
passing (passes f) = some f

-- The frame of the send thread: not yet emptied, still in the index, and out of it.
abbrev pub building : Sending → Option ℕ
building idles = none
building (builds f) = some f
building (empties f) = some f
building (clears f) = none
building (puts f) = none

abbrev pub clearing : Sending → Option ℕ
clearing idles = none
clearing (builds f) = none
clearing (empties f) = none
clearing (clears f) = some f
clearing (puts f) = none

abbrev pub leaving : Sending → Option ℕ
leaving idles = none
leaving (builds f) = none
leaving (empties f) = none
leaving (clears f) = none
leaving (puts f) = some f

module _ (d : Dpdk) where
  -- A frame still waits for packets: it is in `ring2_3`, or in the hand of the align thread.
  abbrev pub waiting : d.Ring → Aligning → ℕ → ℕ
  waiting ring2_3 a o = times o (d.objects ring2_3) + held o (tested a)

  abbrev pub full : d.Ring → Aligning → Sending → ℕ → ℕ
  full ring3_4 a g o = held o (passing a) + times o (d.objects ring3_4) + held o (building g)

  module _ (pool : d.Pool) (ring2_3 ring3_4 : d.Ring) (l : Point) (tmp : Option ℕ) (a : Aligning)
      (g : Sending) where
    abbrev pub linked : ℕ → ℕ
    linked o =
        held o (opened l tmp) + waiting ring2_3 a o + full ring3_4 a g o + held o (clearing g)

    abbrev pub unused : ℕ → ℕ
    unused o = times o (d.free pool) + held o (fresh l tmp) + held o (leaving g)

    abbrev pub tally : Tally
    tally = record {
      all = λ o. unused o + linked o;
      linked = linked;
      full = full ring3_4 a g;
      empty = λ o. unused o + held o (clearing g);
    }

    abbrev pub total : ℕ
    total =
        length (d.free pool)
        + size (fresh l tmp)
        + size (opened l tmp)
        + length (d.objects ring2_3)
        + size (tested a)
        + size (passing a)
        + length (d.objects ring3_4)
        + size (building g)
        + size (clearing g)
        + size (leaving g)

  -- What the consumer has found out about its packet and may still rely on.
  abbrev pub Knows :
      Bool → Point → Packet → Option ℕ → (ℕ → Option ℕ) → (ℕ → Frame) → d.Ring → Aligning → Type 0
  Knows strict away p tmp index frames r a = Unit {0}
  Knows strict asks p tmp index frames r a = p.frame_seq < 65536
  Knows strict gets p tmp index frames r a =
      (index p.frame_seq ≡ none) × (p.frame_seq < 65536) × IsValid p
  Knows strict opens p tmp index frames r a =
      (f : ℕ) × (tmp ≡ some f) × (index p.frame_seq ≡ none) × (p.frame_seq < 65536) × IsValid p
  Knows strict announces p tmp index frames r a =
      (f : ℕ) × (tmp ≡ some f) × (index p.frame_seq ≡ some f)
  Knows strict fills p tmp index frames r a =
      IsValid p
      × (strict ≡ true
          → (f : ℕ) × (index p.frame_seq ≡ some f)
            × (0 < waiting r a f)
            × ((frames f).count < pack_num))
  Knows strict adds p tmp index frames r a =
      IsValid p
      × (strict ≡ true
          → (f : ℕ) × (index p.frame_seq ≡ some f)
            × (0 < waiting r a f)
            × ((frames f).count < pack_num))

  -- Nothing is given up.
  abbrev pub IsPatient : Aligning → Type 0
  IsPatient seeks = Unit {0}
  IsPatient (tests w) = Unit {0}
  IsPatient (cleans f) = ⊥
  IsPatient (passes f) = Unit {0}

  pub record IsOrdered (strict : Bool) (n : ℕ) (c : Channel d) (l : Point) (p : Packet)
      (k : Consumer) (a : Aligning) (g : Sending) : Type 0 where
    pub tidy :
        IsTidy strict c.index c.frames (tally c.frame_pool c.ring2_3 c.ring3_4 l k.tmp_frame a g)
    pub knows : Knows strict l p k.tmp_frame c.index c.frames c.ring2_3 a
    pub patient : strict ≡ true → IsPatient a
    pub counted : total c.frame_pool c.ring2_3 c.ring3_4 l k.tmp_frame a g ≡ n
    pub room_announced : n ≤ d.capacity c.ring2_3
    pub room_passed : n ≤ d.capacity c.ring3_4
    pub bytes : AreBytes c.messages

  -- Between any two accesses: no frame is in two places, and the places together have `n` frames, so
  -- that none of the `n` is lost; those in use stand in the index at their own numbers and nowhere
  -- else. Strictly, without DROP, those that left the align thread are
  -- also complete until the send thread empties them, and the frame into which the consumer copies
  -- a later packet still waits.
  abbrev pub IsOrderly : Bool → ℕ → Threads d → Type 0
  IsOrderly strict n x =
      IsOrdered strict n x.chan x.taking.place x.taking.packet x.taking.locals x.aligning x.sending
