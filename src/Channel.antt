-- ===== src/Channel.antt =====
-- Data_Struct.h: the packet, the frame, and `Thread_arg`, the state that the threads of one
-- channel share. Buffers and frames are objects on a heap, named by their addresses.
use dpdk_udp_receiver.Common.{ℕ, ◌+◌, Bool, false, Option, none, Bytes, le16}
use dpdk_udp_receiver.Dpdk.{Dpdk}

-- PACK_NUM, DATA_LENGTH, MESSAGE_LENGTH, INDEX_SIZE and TIMER_RESOLUTION_CYCLES.
abbrev pub pack_num : ℕ
pack_num = 44

abbrev pub data_length : ℕ
data_length = 1464

abbrev pub message_length : ℕ
message_length = 64040

abbrev pub index_size : ℕ
index_size = 90000

abbrev pub timer_resolution_cycles : ℕ
timer_resolution_cycles = 20000000

-- The macros that choose what is compiled: GODOT, KAZE and DROP. RING is defined, QUEUE, LOG,
-- SEND and FAKE_DATA are not.
pub record Config : Type 0 where
  pub godot : Bool
  pub kaze : Bool
  pub drop : Bool

-- `udpPacket_1460`. It has no padding, so a field is at the sum of the sizes before it.
pub record Packet : Type 0 where
  pub node_num : ℕ
  pub frame_seq : ℕ
  pub packet_num : ℕ
  pub packet_seq : ℕ
  pub packet_len : ℕ
  pub payload : Bytes

-- `(udpPacket_1460 *)tmp` on a little-endian machine.
unfoldable pub packet_at : Bytes → Packet
packet_at tmp = record {
  node_num = le16 tmp 0;
  frame_seq = le16 tmp 2;
  packet_num = tmp 4;
  packet_seq = tmp 5;
  packet_len = le16 tmp 6;
  payload = λ o. tmp (8 + o);
}

-- `udpFrame_1460`. `bytes` is `data[PACK_NUM][DATA_LENGTH]`, row after row.
pub record Frame : Type 0 where
  pub count : ℕ
  pub frame_seq : ℕ
  pub packet_num : ℕ
  pub bytes : Bytes
  pub flags : ℕ → Bool

-- `Thread_arg`. `index` is `local_UDPFrameIndex->pUDPFrame`, `frame_pool` is
-- `local_udpFrameMempool`; `messages` and `frames` are the memory of the objects of `send_pool`
-- and `frame_pool`. The counters are unsigned int.
pub record Channel (d : Dpdk) : Type 0 where
  pub id : ℕ
  pub channel_id : ℕ
  pub proc_id : ℕ
  pub index : ℕ → Option ℕ
  pub frame_pool : d.Pool
  pub send_pool : d.Pool
  pub ring1_2 : d.Ring
  pub ring2_3 : d.Ring
  pub ring3_4 : d.Ring
  pub messages : ℕ → Bytes
  pub frames : ℕ → Frame
  pub sent_frame : ℕ
  pub forward_packet : ℕ
  pub align_num : ℕ
  pub global_count : ℕ
  pub drop_count : ℕ
  pub mis : ℕ
  pub mis_msg : ℕ
  pub last_count : ℕ
  pub last_forward : ℕ
  pub align_init : Bool
  pub assem_init : Bool
  pub timer_init : Bool
  pub send_thread_init : Bool

-- What the constructors of `Thread_arg` and `udpFramesIndex65536_1460` set, around the rings and
-- pools that `main` makes, where rte_zmalloc has given the memory of the index. Where it gives a
-- null pointer, `main` goes on all the same, and Boot has what becomes of it.
unfoldable pub new_channel :
    (d : Dpdk) (i : ℕ)
    → d.Pool
    → d.Pool
    → d.Ring
    → d.Ring
    → d.Ring
    → (ℕ → Bytes)
    → (ℕ → Frame)
    → Channel d
new_channel d i frame_pool send_pool ring1_2 ring2_3 ring3_4 messages frames = record {
  id = 1400 + i;
  channel_id = i;
  proc_id = i;
  index = λ _. none;
  frame_pool = frame_pool;
  send_pool = send_pool;
  ring1_2 = ring1_2;
  ring2_3 = ring2_3;
  ring3_4 = ring3_4;
  messages = messages;
  frames = frames;
  sent_frame = 0;
  forward_packet = 0;
  align_num = 0;
  global_count = 0;
  drop_count = 0;
  mis = 0;
  mis_msg = 0;
  last_count = 0;
  last_forward = 0;
  align_init = false;
  assem_init = false;
  timer_init = false;
  send_thread_init = false;
}
