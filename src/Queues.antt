-- ===== src/Queues.antt =====
-- Functions.h, the older threads that pass frames on in queues: `align_frame` and `send_to_pulsar`.
-- Sleeping and printing are left out.
pub mod Contents
pub mod Order
pub mod Drained
pub mod Skipped
use dpdk_udp_receiver.Common.{
  ℕ, zero, suc, ◌+◌, ◌*◌, Bool, true, false, Option, none, some, List, [], ◌∷◌, ◌++◌, length, ltb,
  ◌==◌, if◌then◌else◌, Bytes, update, memcpy, Result, ok, fault, ◌>>=◌,
}
use dpdk_udp_receiver.Channel.{Frame, pack_num, index_size}

-- The fields of `Thread_arg` that these threads share: `local_UDPFrameIndex->pUDPFrame` with the
-- frames that it points to, and the queues, the front first. A number in a queue is an `int` that
-- is not negative.
pub record QueueArg : Type 0 where
  pub index : ℕ → Option ℕ
  pub frames : ℕ → Frame
  pub frame_queue : List ℕ
  pub queue_to_send : List ℕ

-- `pUDPFrame[id]`.
abbrev pub slot : QueueArg → ℕ → Result (Option ℕ)
slot x id = if ltb id index_size then ok (x.index id) else fault

-- `pUDPFrame[id]->count = 0; pUDPFrame[id] = NULL;` for the frame `f`.
unfoldable pub clear_frame : ℕ → ℕ → QueueArg → QueueArg
clear_frame id f x = record x {
  frames = update x.frames f (record (x.frames f) { count = 0 });
  index = update x.index id none;
}

-- What is done with the frame at the front.
unfoldable pub skip_slot : ℕ → List ℕ → QueueArg → Option ℕ → QueueArg
skip_slot id rest x none = x
skip_slot id rest x (some f) = clear_frame id f (record x { frame_queue = rest })

-- A round of the loop that drops frames; `queue` is `frame_queue`, whose front must be there.
unfoldable pub skip_front : List ℕ → QueueArg → Result QueueArg
skip_front [] x = fault
skip_front (id ∷ rest) x = do found ← slot x id; ok (skip_slot id rest x found)

-- The loop, with `n` rounds left.
unfoldable pub skip : ℕ → QueueArg → Result QueueArg
skip zero x = ok x
skip (suc n) x = do next ← skip_front x.frame_queue x; skip n next

-- `align_frame` before its endless loop.
unfoldable pub skip_first : QueueArg → Result QueueArg
skip_first x = if ltb 6 (length x.frame_queue) then skip 5 x else ok x

-- The frame at the front, if it is complete, is passed on.
unfoldable pub align_slot : ℕ → List ℕ → QueueArg → Option ℕ → QueueArg
align_slot id rest x none = x
align_slot id rest x (some f) =
    if (x.frames f).count == pack_num
    then record x { queue_to_send = x.queue_to_send ++ (id ∷ []); frame_queue = rest }
    else x

unfoldable pub align_front : List ℕ → QueueArg → Result QueueArg
align_front [] x = ok x
align_front (id ∷ rest) x = do found ← slot x id; ok (align_slot id rest x found)

-- A round of the endless loop of `align_frame`.
unfoldable pub align_frame : QueueArg → Result QueueArg
align_frame x = align_front x.frame_queue x

-- `sizeof(byte) * 23 * 1460`.
abbrev pub content_size : ℕ
content_size = 23 * 1460

-- The first `n` bytes.
unfoldable pub read : ℕ → Bytes → List ℕ
read zero b = []
read (suc n) b = read n b ++ (b n ∷ [])

-- `producer.sendAsync` of the Pulsar client with a message of these bytes, a parameter of the
-- model.
pub record Producer : Type 1 where
  pub State : Type 0
  pub send_async : List ℕ → State → State

-- A round of either thread.
pub data Turn : Type 0 where
  aligns posts : Turn

module _ (p : Producer) where
  -- The thread's view: what it shares, and its locals `tmp` and `producer`.
  pub record Post : Type 0 where
    pub arg : QueueArg
    pub tmp : Bytes
    pub producer : p.State

  -- With the frame of the front: without one, the read of `data` goes through a null pointer.
  unfoldable pub post_slot : ℕ → List ℕ → Post → Option ℕ → Result Post
  post_slot id rest s none = fault
  post_slot id rest s (some f) =
      let tmp = memcpy s.tmp 0 (s.arg.frames f).bytes content_size in
      ok (record {
        arg = clear_frame id f (record (s.arg) { queue_to_send = rest });
        tmp = tmp;
        producer = p.send_async (read content_size tmp) s.producer;
      })

  unfoldable pub post_front : List ℕ → Post → Result Post
  post_front [] s = ok s
  post_front (id ∷ rest) s = do found ← slot s.arg id; post_slot id rest s found

  -- A round of `send_to_pulsar`.
  unfoldable pub post : Post → Result Post
  post s = post_front s.arg.queue_to_send s

  unfoldable pub turn : Turn → Post → Result Post
  turn aligns s = do arg ← align_frame s.arg; ok (record s { arg = arg })
  turn posts s = post s

  -- Rounds in any order.
  unfoldable pub run : List Turn → Post → Result Post
  run [] s = ok s
  run (t ∷ ts) s = do next ← turn t s; run ts next
