-- ===== src/Pipeline/View.antt =====
-- The abstract view of a channel and of what the align thread holds.
use dpdk_udp_receiver.Common.{ℕ, ◌<◌, ◌≡◌, subst, Option, none, some, Bytes}
use dpdk_udp_receiver.Dpdk.{Dpdk}
use dpdk_udp_receiver.Channel.{Channel}
use dpdk_udp_receiver.Align.{Wait}
use dpdk_udp_receiver.Pipeline.Life.{Life, Move, stay}

-- A memory holds bytes.
abbrev pub AreBytes : (ℕ → Bytes) → Type 0
AreBytes mem = (o i : ℕ) → mem o i < 256

abbrev pub hand_of : Option Wait → Option ℕ
hand_of none = none
hand_of (some w) = some w.frame

module _ (d : Dpdk) where
  abbrev pub life : Channel d → Option Wait → Life d
  life c w = record {
    index = c.index;
    pool = c.frame_pool;
    announced = c.ring2_3;
    hand = hand_of w;
    passed = c.ring3_4;
    frames = c.frames;
  }

pub stay_at : {d : Dpdk} {v w : Life d} → v ≡ w → Move d v w
stay_at {d} {v} e = subst (Move d v) e stay
