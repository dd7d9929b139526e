-- ===== src/Pipeline/Promises.antt =====
-- What the code relies on without a check, and has: consequences of the invariant.
use dpdk_udp_receiver.Common.{
  ℕ, ◌<◌, ◌≤◌, ◌≡◌, ◌≢◌, ◌∙◌, sym, ap, arith, true, none, some, [], fault, Bytes, times, length,
}
use dpdk_udp_receiver.Dpdk.{Dpdk, Lawful}
use dpdk_udp_receiver.Dpdk.Laws.{times-dequeue, times-get, length-get}
use dpdk_udp_receiver.Channel.{Config, Frame, new_channel}
use dpdk_udp_receiver.Assemble.{new_consumer}
use dpdk_udp_receiver.Align.{Wait}
use dpdk_udp_receiver.Send.{Sender, send}
use dpdk_udp_receiver.Pipeline.Life.{IsEmpty, busy}
use dpdk_udp_receiver.Pipeline.View.{AreBytes}
use dpdk_udp_receiver.Pipeline.Sends.{send-ne-fault}
use dpdk_udp_receiver.Pipeline.{System, Reach}
use dpdk_udp_receiver.Pipeline.Safety.{IsSafe, Reach-IsSafe, view}

module _ (cfg : Config) (d : Dpdk) (laws : Lawful d) (n : ℕ) where
  -- What `main` gives a channel: a frame pool of `n` different frames, all of them empty, and
  -- empty rings that can hold as many.
  pub record IsFresh (frame_pool : d.Pool) (ring2_3 ring3_4 : d.Ring) (messages : ℕ → Bytes)
      (frames : ℕ → Frame) : Type 0 where
    pub distinct : (o : ℕ) → times o (d.free frame_pool) ≤ 1
    pub many : length (d.free frame_pool) ≡ n
    pub nothing_announced : d.objects ring2_3 ≡ []
    pub nothing_passed : d.objects ring3_4 ≡ []
    pub room_announced : n ≤ d.capacity ring2_3
    pub room_passed : n ≤ d.capacity ring3_4
    pub bytes : AreBytes messages
    pub zeroed : (f : ℕ) → 0 < times f (d.free frame_pool) → IsEmpty (frames f)

  -- A channel as `main` makes it, before the threads have run.
  abbrev pub fresh_system :
      ℕ → d.Pool → d.Pool → d.Ring → d.Ring → d.Ring → (ℕ → Bytes) → (ℕ → Frame) → Sender → System d
  fresh_system i frame_pool send_pool ring1_2 ring2_3 ring3_4 messages frames sender = record {
    chan = new_channel d i frame_pool send_pool ring1_2 ring2_3 ring3_4 messages frames;
    consumer = new_consumer;
    wait = none;
    sender = sender;
  }

  -- A channel made of a pool of `n` different empty frames and of empty rings that can hold `n` is
  -- safe.
  pub fresh-IsSafe :
      (i : ℕ) (frame_pool send_pool : d.Pool) (ring1_2 ring2_3 ring3_4 : d.Ring)
      (messages : ℕ → Bytes) (frames : ℕ → Frame) (sender : Sender)
      → IsFresh frame_pool ring2_3 ring3_4 messages frames
      → IsSafe cfg d laws n
          (fresh_system i frame_pool send_pool ring1_2 ring2_3 ring3_4 messages frames sender)
  unfolding new_channel
  fresh-IsSafe i frame_pool send_pool ring1_2 ring2_3 ring3_4 messages frames sender h = record {
    sound = record {
      once = λ o.
          omega
            (arith, h.distinct o, ap (times o) h.nothing_announced, ap (times o) h.nothing_passed);
      total =
          omega
            (arith, h.many, ap (length {0}) h.nothing_announced, ap (length {0}) h.nothing_passed);
      room_announced = h.room_announced;
      room_passed = h.room_passed;
      indexed = λ s f e. cc;
      found = λ f b.
          absurd
            (omega (arith, b, ap (times f) h.nothing_announced, ap (times f) h.nothing_passed));
      empty = h.zeroed;
    };
    bytes = h.bytes;
  }

  module _ {x y : System d} (h : IsSafe cfg d laws n x) (r : Reach cfg d x y) where
    -- In no state reached from a safe one by the steps of `Step` does the send thread use a
    -- sequence number outside of the index.
    pub Reach-send-ne-fault : send d (y.chan, y.sender) ≢ fault
    Reach-send-ne-fault =
        let s = (Reach-IsSafe cfg d laws n h r).sound in
        send-ne-fault d y.chan y.sender λ f rest got.
          omega
            (arith, s.found f (ground (arith, times-dequeue d laws f f y.chan.ring3_4 rest got)))

    -- In no state reached from a safe one by the steps of `Step` do two sequence numbers share a
    -- frame.
    pub Reach-index_injective :
        (s t f : ℕ) → y.chan.index s ≡ some f → y.chan.index t ≡ some f → s ≡ t
    Reach-index_injective s t f p q =
        let sound = (Reach-IsSafe cfg d laws n h r).sound in
        sym (sound.indexed s f p).0 ∙ (sound.indexed t f q).0

    -- In every state reached from a safe one by the steps of `Step`, a frame that the pool gives
    -- out is empty, is in no ring and in no slot of the index, and its announcement to the align
    -- thread succeeds.
    pub Reach-get :
        (f : ℕ) (m : d.Pool)
        → d.get y.chan.frame_pool ≡ some (f, m)
        → IsEmpty (y.chan.frames f)
          × (busy d f (view cfg d y) ≡ 0)
          × ((s : ℕ) → y.chan.index s ≢ some f)
          × ((d.enqueue f y.chan.ring2_3).0 ≡ true)
    Reach-get f m got =
        let s = (Reach-IsSafe cfg d laws n h r).sound in
        let freed : 0 < times f (d.free y.chan.frame_pool) =
          ground (arith, times-get d laws f f y.chan.frame_pool m got) in
        (
          s.empty f freed,
          omega (arith, s.once f, freed),
          λ t e. absurd (omega (arith, s.indexed t f e, freed)),
          (laws.enqueue_room f y.chan.ring2_3 (
              omega
                (arith, s.total, s.room_announced, length-get d laws f y.chan.frame_pool m got))).0,
        )

    -- In every state reached from a safe one by the steps of `Step`, the frame in the hand of the
    -- align thread can be passed on to the send thread.
    pub Reach-pass : (w : Wait) → y.wait ≡ some w → (d.enqueue w.frame y.chan.ring3_4).0 ≡ true
    Reach-pass w e =
        let s = (Reach-IsSafe cfg d laws n h r).sound in
        (laws.enqueue_room w.frame y.chan.ring3_4 (ground (arith, s.total, s.room_passed))).0
