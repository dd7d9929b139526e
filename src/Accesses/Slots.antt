-- ===== src/Accesses/Slots.antt =====
-- Reading the slots of the index, and a frame through its slot.
use dpdk_udp_receiver.Common.{
  ℕ, Option, fault, ◌<◌, ◌≡◌, refl, arith, none, some, Result, ok, ◌>>=◌, update,
}
use dpdk_udp_receiver.Dpdk.{Dpdk}
use dpdk_udp_receiver.Channel.{Frame, Channel, pack_num}
use dpdk_udp_receiver.Accesses.{through}

-- An access through a slot that leads to the frame `f`.
pub through-some :
    (d : Dpdk) (c : Channel d) (s f : ℕ) (write : Frame → Result Frame) (v : Frame)
    → c.index s ≡ some f
    → write (c.frames f) ≡ ok v
    → through d s write c ≡ ok (record c { frames = update c.frames f v })
unfolding through
through-some d c s f write v has done = rw (has, through) (rw (done, ◌>>=◌) refl)

pub through-none :
    (d : Dpdk) (c : Channel d) (s : ℕ) (write : Frame → Result Frame)
    → c.index s ≡ none
    → through d s write c ≡ fault
unfolding through
through-none d c s write empty = rw (empty, through) refl

-- What holds of the frame in a slot holds of the frame that the slot was found to have.
pub at_slot :
    (index : ℕ → Option ℕ) (frames : ℕ → Frame) (s f : ℕ) (many : ℕ → ℕ)
    → index s ≡ some f
    → ((o : ℕ) × (index s ≡ some o) × (0 < many o) × ((frames o).count < pack_num))
    → (0 < many f) × ((frames f).count < pack_num)
at_slot index frames s f many has (o, same, waits, short) = ground arith
