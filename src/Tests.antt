-- ===== src/Tests.antt =====
-- Concrete inputs on which the code is run: a packet, a frame, a channel. It models no code.
mod Frames
mod Bursts
mod Runs
mod Routes
mod Setups
mod Repeats
mod Devices
mod Seconds
mod Boots
mod Launched
mod Masks
mod Queued
mod Starts
mod Shown
mod Journeys
mod Accessed
use dpdk_udp_receiver.Common.{
  ◌<◌, arith, ℕ, Bool, true, false, Option, none, some, List, [], ◌∷◌, ltb, ◌==◌, if◌then◌else◌,
  Bytes, Result, ok, panic, fault,
}
use dpdk_udp_receiver.Pipeline.View.{AreBytes}
use dpdk_udp_receiver.Send.{Sender}
use dpdk_udp_receiver.Dpdk.Listed.{listed, ListRing}
use dpdk_udp_receiver.Channel.{Config, Packet, Frame, Channel}

abbrev pub everything : Config
everything = record { godot = true; kaze = true; drop = true }

abbrev pub defaults : Config
defaults = record { godot = false; kaze = false; drop = true }

-- The bytes of packet `q` of the frame `s`, with a payload of sevens.
abbrev pub packet_bytes : ℕ → ℕ → Bytes
packet_bytes s q o =
    if o == 2
    then s
    else if o == 5
    then q
    else if o == 6
    then 184
    else if o == 7
    then 5
    else if ltb 7 o
    then 7
    else 0

-- The packet that they are, read at the offsets of `packet_at`.
abbrev pub packet : ℕ → ℕ → Packet
packet s q = record {
  node_num = 0;
  frame_seq = s;
  packet_num = 0;
  packet_seq = q;
  packet_len = 1464;
  payload = λ o. 7;
}

abbrev pub blank : Frame
blank = record { count = 0; frame_seq = 0; packet_num = 0; bytes = λ _. 0; flags = λ _. false }

-- Message buffer `o` holds packet `o` of the frame 3.
abbrev pub memory : ℕ → Bytes
memory o = packet_bytes 3 (if ltb o 44 then o else 0)

abbrev pub ring_of : List ℕ → ListRing
ring_of items = record { items = items; room = 4 }

-- The frames 100 and 101 are free.
abbrev pub channel : List ℕ → List ℕ → Channel listed
channel send_pool waiting = record {
  id = 1400;
  channel_id = 0;
  proc_id = 0;
  index = λ _. none;
  frame_pool = 100 ∷ 101 ∷ [];
  send_pool = send_pool;
  ring1_2 = ring_of waiting;
  ring2_3 = ring_of [];
  ring3_4 = ring_of [];
  messages = memory;
  frames = λ _. blank;
  sent_frame = 0;
  forward_packet = 0;
  align_num = 0;
  global_count = 0;
  drop_count = 0;
  mis = 0;
  mis_msg = 0;
  last_count = 0;
  last_forward = 0;
  align_init = false;
  assem_init = false;
  timer_init = false;
  send_thread_init = false;
}

-- The value of a result.
abbrev pub value_of {ℓ} : {A : Type ℓ} → A → Result A → A
value_of a (ok b) = b
value_of a panic = a
value_of a fault = a

packet_bytes-lt : (s q o : ℕ) → s < 256 → q < 256 → packet_bytes s q o < 256
packet_bytes-lt s q o hs hq = ground arith

pub memory-AreBytes : AreBytes memory
memory-AreBytes o i = packet_bytes-lt 3 _ i (omega arith) (ground arith)

-- A send thread that has sent nothing.
abbrev pub idle : Sender
idle = record { tmp = λ _. 0; send_id = 0; timeflag = 0; last_timeflag = 0 }
