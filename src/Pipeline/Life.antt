-- ===== src/Pipeline/Life.antt =====
-- The life of a frame, as the threads of a channel move it: free, announced, in the hand of the
-- align thread, on its way to the sender, free again. An abstract view of the shared state.
pub mod Sound
use dpdk_udp_receiver.Common.{
  ℕ, ◌+◌, ◌<◌, ◌≤◌, ◌≡◌, Bool, false, Option, none, some, [], ◌∷◌, times, length, update,
}
use dpdk_udp_receiver.Dpdk.{Dpdk}
use dpdk_udp_receiver.Channel.{Frame, pack_num}

pub record Life (d : Dpdk) : Type 0 where
  pub index : ℕ → Option ℕ
  pub pool : d.Pool
  pub announced : d.Ring
  pub hand : Option ℕ
  pub passed : d.Ring
  pub frames : ℕ → Frame

-- Nothing is left of the packets that the frame held.
pub record IsEmpty (g : Frame) : Type 0 where
  pub no_packets : g.count ≡ 0
  pub no_flags : (i : ℕ) → i < pack_num → g.flags i ≡ false

module _ (d : Dpdk) where
  -- What a thread may do with a frame.
  pub data Move (v : Life d) : Life d → Type 0 where
    stay : Move v v
    -- A later packet is added to the frame `f`.
    fill :
        (s f : ℕ) (g : Frame)
        → v.index s ≡ some f
        → g.frame_seq ≡ (v.frames f).frame_seq
        → Move v (record v { frames = update v.frames f g })
    -- A free frame becomes that of the sequence number `s`, and is announced.
    start :
        (s f : ℕ) (m : d.Pool) (g : Frame)
        → s < 65536
        → v.index s ≡ none
        → d.get v.pool ≡ some (f, m)
        → g.frame_seq ≡ s
        → Move v (record v {
          index = update v.index s (some f);
          pool = m;
          announced = (d.enqueue f v.announced).1;
          frames = update v.frames f g;
        })
    take_up :
        (f : ℕ) (rest : d.Ring)
        → v.hand ≡ none
        → d.dequeue v.announced ≡ some (f, rest)
        → Move v (record v { announced = rest; hand = some f })
    pass :
        (f : ℕ) (g : Frame)
        → v.hand ≡ some f
        → g.frame_seq ≡ (v.frames f).frame_seq
        → Move v (record v {
          hand = none;
          passed = (d.enqueue f v.passed).1;
          frames = update v.frames f g;
        })
    -- The frame is given back, empty, and leaves the index.
    give :
        (f : ℕ) (rest : d.Ring) (g : Frame)
        → d.dequeue v.passed ≡ some (f, rest)
        → IsEmpty g
        → g.frame_seq ≡ (v.frames f).frame_seq
        → Move v (record v {
          index = update v.index (v.frames f).frame_seq none;
          pool = d.put f v.pool;
          passed = rest;
          frames = update v.frames f g;
        })

  abbrev pub in_hand : ℕ → Option ℕ → ℕ
  in_hand o none = 0
  in_hand o (some f) = times o (f ∷ [])

  abbrev pub hands : Option ℕ → ℕ
  hands none = 0
  hands (some f) = 1

  -- How often a frame is in use, how often it is anywhere, and how many frames there are.
  abbrev pub busy : ℕ → Life d → ℕ
  busy o v = times o (d.objects v.announced) + in_hand o v.hand + times o (d.objects v.passed)

  abbrev pub places : ℕ → Life d → ℕ
  places o v = times o (d.free v.pool) + busy o v

  abbrev pub size : Life d → ℕ
  size v =
      length (d.free v.pool)
      + length (d.objects v.announced)
      + hands v.hand
      + length (d.objects v.passed)

  -- What always holds of the `n` frames of a channel.
  pub record IsSound (n : ℕ) (v : Life d) : Type 0 where
    pub once : (o : ℕ) → places o v ≤ 1
    pub total : size v ≡ n
    pub room_announced : n ≤ d.capacity v.announced
    pub room_passed : n ≤ d.capacity v.passed
    pub indexed :
        (s f : ℕ)
        → v.index s ≡ some f
        → ((v.frames f).frame_seq ≡ s) × (times f (d.free v.pool) ≡ 0)
    pub found :
        (f : ℕ)
        → 0 < busy f v
        → (v.index (v.frames f).frame_seq ≡ some f) × ((v.frames f).frame_seq < 65536)
    pub empty : (f : ℕ) → 0 < times f (d.free v.pool) → IsEmpty (v.frames f)
