-- ===== src/Queues/Contents.antt =====
-- What waits in the queues of Functions.h, and the messages that the frames come to.
use dpdk_udp_receiver.Common.{
  IsGiven, ℕ, zero, suc, ◌<◌, ◌≤◌, ◌≡◌, refl, ap, ◌∙◌, arith, ==_iff, Bool-cases, inl, inr, Option,
  none, some, List, [], ◌∷◌, ◌++◌, ◌==◌, Bytes, update, update_ne, memcpy, times, All, ◌≢◌,
}
use dpdk_udp_receiver.Channel.{Frame, index_size}
use dpdk_udp_receiver.Queues.{QueueArg, clear_frame, content_size, read}

-- All frames that wait, the next to leave first.
abbrev pub waiting : QueueArg → List ℕ
waiting x = x.queue_to_send ++ x.frame_queue

-- Each number that waits is in one place, is a slot of the index, and one that is to be sent has
-- its frame.
pub record IsQueued (x : QueueArg) : Type 0 where
  pub once : (id : ℕ) → times id (waiting x) ≤ 1
  pub small : All (λ id. id < index_size) (waiting x)
  pub present : All (λ id. IsGiven (x.index id)) x.queue_to_send

-- The message of the slot: the first 33580 bytes of the frame.
abbrev pub content_of : (ℕ → Frame) → Option ℕ → List ℕ
content_of frames none = []
content_of frames (some f) = read content_size (frames f).bytes

abbrev pub content : QueueArg → ℕ → List ℕ
content x id = content_of x.frames (x.index id)

pub memcpy-inside : (n size : ℕ) (a b : Bytes) → n < size → memcpy a 0 b size n ≡ b n
memcpy-inside n size a b h = ground arith

-- Reading what was copied.
pub read-memcpy : (n size : ℕ) (a b : Bytes) → n ≤ size → read n (memcpy a 0 b size) ≡ read n b
unfolding read
read-memcpy zero size a b h = refl
read-memcpy (suc n) size a b h =
    rw (read-memcpy n size a b (omega arith))
      (ap (λ (v : ℕ). read n b ++ (v ∷ [])) (memcpy-inside n size a b (omega arith)))

-- The frames with `f` counted as empty.
abbrev pub emptied : ℕ → QueueArg → ℕ → Frame
emptied f x = update x.frames f (record (x.frames f) { count = 0 })

-- Clearing the slot `id` leaves the message of every other.
pub clear_frame-content :
    (id f j : ℕ) (x : QueueArg) → id ≢ j → content (clear_frame id f x) j ≡ content x j
unfolding clear_frame
clear_frame-content id f j x ne =
    ap (content_of (emptied f x)) (update_ne x.index id j none ne) ∙ same (x.index j)
  where
    bytes_same : (g : ℕ) → (emptied f x g).bytes ≡ (x.frames g).bytes
    bytes_same g = elim (Bool-cases (f == g)) [
      | inl e ↦ rw (e, (==_iff f g).0 e) refl
      | inr e ↦ rw e refl
    ]

    same : (o : Option ℕ) → content_of (emptied f x) o ≡ content_of x.frames o
    same none = refl
    same (some g) = ap (read content_size) (bytes_same g)
