-- ===== src/Assemble/Copy.antt =====
-- What a copied packet leaves in its frame.
use dpdk_udp_receiver.Common.{ℕ, ◌+◌, ◌-◌, ◌*◌, ap, ◌≤◌, ◌<◌, ◌≡◌, ◌≢◌, arith, ok, memcpy}
use dpdk_udp_receiver.Channel.{Packet, Frame, pack_num, data_length}
use dpdk_udp_receiver.Assemble.{copy_packet}

-- The packet names a row of `data`, and its length fits one.
pub record IsValid (p : Packet) : Type 0 where
  pub seq_in : p.packet_seq < pack_num
  pub len_in : p.packet_len ≤ data_length

-- The payload stands in the packet's row.
abbrev pub Holds : Frame → Packet → Type 0
Holds f p = (o : ℕ) → o < p.packet_len → f.bytes (p.packet_seq * data_length + o) ≡ p.payload o

-- `copy_packet` on a valid packet.
abbrev pub copied : Packet → Frame → Frame
copied p f = record f { bytes = memcpy f.bytes (p.packet_seq * data_length) p.payload p.packet_len }

pub copy_packet-valid : (p : Packet) (f : Frame) → IsValid p → copy_packet p f ≡ ok (copied p f)
unfolding copy_packet
copy_packet-valid p f v = ground arith

row_offset : (s k : ℕ) → s * data_length + k - s * data_length ≡ k
row_offset s k = omega arith

pub copied-Holds : (p : Packet) (f : Frame) → Holds (copied p f) p
copied-Holds p f o h = ground (arith, ap p.payload (row_offset p.packet_seq o))

pub copied-keeps-Holds :
    (p q : Packet) (f : Frame)
    → IsValid p
    → IsValid q
    → p.packet_seq ≢ q.packet_seq
    → Holds f q
    → Holds (copied p f) q
copied-keeps-Holds p q f vp vq ne h o lt = ground (arith, h o)
