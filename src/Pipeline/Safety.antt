-- ===== src/Pipeline/Safety.antt =====
-- What holds of the frames of a channel whatever its threads do, in whatever order.
use dpdk_udp_receiver.Common.{ℕ, ap, subst, Option}
use dpdk_udp_receiver.Dpdk.{Dpdk, Lawful}
use dpdk_udp_receiver.Channel.{Config, Channel}
use dpdk_udp_receiver.Align.{Wait}
use dpdk_udp_receiver.Setup.{let_start}
use dpdk_udp_receiver.Timer.{prepare, start, report}
use dpdk_udp_receiver.Pipeline.Life.{Life, Move, IsSound}
use dpdk_udp_receiver.Pipeline.Life.Sound.{Move-IsSound}
use dpdk_udp_receiver.Pipeline.View.{AreBytes, life}
use dpdk_udp_receiver.Pipeline.Memory.{round-messages, align-messages, send-messages}
use dpdk_udp_receiver.Pipeline.Consumes.{round-Move}
use dpdk_udp_receiver.Pipeline.Aligns.{align-Move}
use dpdk_udp_receiver.Pipeline.Sends.{send-Move}
use dpdk_udp_receiver.Pipeline.{
  System, Step, consumes, aligns, sends, delivers, prepares, starts, permits, reports, Reach, here,
  next,
}

module _ (cfg : Config) (d : Dpdk) where
  abbrev pub view : System d → Life d
  view x = life d x.chan x.wait

  -- When the message buffers hold bytes, every step that `Step` has, which leaves out rounds of the
  -- consumer with an empty pool, is a move in the life of a frame, or leaves the frames as they are.
  pub Step-Move :
      {x y : System d} → Step cfg d x y → AreBytes x.chan.messages → Move d (view x) (view y)
  unfolding prepare start let_start report
  Step-Move {x} (consumes c k some_free e) bytes =
      round-Move cfg d x.chan c x.consumer k x.wait bytes some_free e
  Step-Move {x} (aligns tsc c w e) bytes =
      subst (λ (z : Channel d × Option Wait). Move d (view x) (life d z.0 z.1)) e
        (align-Move cfg d tsc x.chan x.wait)
  Step-Move {x} (sends c s e) bytes = send-Move d x.chan c x.sender s x.wait e
  Step-Move (delivers r m mem new) bytes = Move.stay
  Step-Move prepares bytes = Move.stay
  Step-Move starts bytes = Move.stay
  Step-Move permits bytes = Move.stay
  Step-Move (reports count forward) bytes = Move.stay

  Step-AreBytes :
      {x y : System d} → Step cfg d x y → AreBytes x.chan.messages → AreBytes y.chan.messages
  unfolding prepare start let_start report
  Step-AreBytes {x} (consumes c k some_free e) bytes =
      rw (round-messages cfg d x.chan x.consumer (c, k) e) bytes
  Step-AreBytes {x} (aligns tsc c w e) bytes =
      rw (← ap (λ (z : Channel d × Option Wait). z.0.messages) e)
        (rw (align-messages cfg d tsc x.chan x.wait) bytes)
  Step-AreBytes {x} (sends c s e) bytes = rw (send-messages cfg d x.chan c x.sender s e) bytes
  Step-AreBytes (delivers r m mem new) bytes = new
  Step-AreBytes prepares bytes = bytes
  Step-AreBytes starts bytes = bytes
  Step-AreBytes permits bytes = bytes
  Step-AreBytes (reports count forward) bytes = bytes

  module _ (laws : Lawful d) (n : ℕ) where
    -- The frames of the channel are sound, and the message buffers hold bytes.
    pub record IsSafe (x : System d) : Type 0 where
      pub sound : IsSound d n (view x)
      pub bytes : AreBytes x.chan.messages

    -- From a safe state on, after any sequence of the steps that `Step` has, each of the `n` frames
    -- is in one place, free or in use once; a frame in use stands in the index at its own sequence
    -- number and nowhere else, a free one stands nowhere in the index and is empty; and `ring2_3`
    -- and `ring3_4` can hold all of them.
    pub Reach-IsSafe : {x y : System d} → IsSafe x → Reach cfg d x y → IsSafe y
    Reach-IsSafe h here = h
    Reach-IsSafe h (next r st) =
        let before = Reach-IsSafe h r in
        record {
          sound = Move-IsSound d laws n before.sound (Step-Move st before.bytes);
          bytes = Step-AreBytes st before.bytes;
        }
