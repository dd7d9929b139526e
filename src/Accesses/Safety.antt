-- ===== src/Accesses/Safety.antt =====
-- What holds of the frames of a channel in whatever order the accesses of its threads come.
use dpdk_udp_receiver.Common.{ℕ, Bool, true, ◌≡◌, subst, false, ok}
use dpdk_udp_receiver.Dpdk.{Dpdk, Lawful}
use dpdk_udp_receiver.Channel.{Config, Channel}
use dpdk_udp_receiver.Timer.{prepare, start, report}
use dpdk_udp_receiver.Setup.{let_start}
use dpdk_udp_receiver.Accesses.{
  Taking, Aligning, Sending, Threads, consumer_access, Step, consumes, aligns, sends, delivers,
  prepares, starts, permits, reports, Run, here, next,
}
use dpdk_udp_receiver.Accesses.Spread.{IsOrdered, IsOrderly}
use dpdk_udp_receiver.Accesses.Consumes.{Expects, access_at-ordered}
use dpdk_udp_receiver.Accesses.Aligns.{align_access-ordered}
use dpdk_udp_receiver.Accesses.Sends.{send_access-ordered}

module _ (cfg : Config) (d : Dpdk) (laws : Lawful d) (strict : Bool) (n : ℕ) where
  -- The consumer is met by what it counts on: a packet is valid, and the pool is not empty when a
  -- frame is got; where it is `strict`, a packet comes only as long as its frame still waits for
  -- packets.
  abbrev pub IsCalm : Threads d → Type 0
  IsCalm x = Expects cfg d strict n x.taking.place x.taking.packet x.chan x.aligning

  consumes-orderly :
      (c c' : Channel d) (t t' : Taking) (a : Aligning) (g : Sending)
      → IsOrdered d strict n c t.place t.packet t.locals a g
      → Expects cfg d strict n t.place t.packet c a
      → consumer_access cfg d (c, t) ≡ ok (c', t')
      → IsOrdered d strict n c' t'.place t'.packet t'.locals a g
  unfolding consumer_access
  consumes-orderly c c' t t' a g h x e =
      access_at-ordered cfg d strict n a g c t.packet t.locals laws t.place (c', t') h x e

  -- The flags of the start, and what the timer thread remembers, make no difference.
  flagged :
      (x : Threads d) (timer send assem : Bool) (count forward : ℕ)
      → IsOrderly d strict n x
      → IsOrderly d strict n (record x {
        chan = record (x.chan) {
          timer_init = timer;
          send_thread_init = send;
          assem_init = assem;
          last_count = count;
          last_forward = forward;
        };
      })
  flagged x timer send assem count forward h = record {
    tidy = h.tidy;
    knows = h.knows;
    patient = h.patient;
    counted = h.counted;
    room_announced = h.room_announced;
    room_passed = h.room_passed;
    bytes = h.bytes;
  }

  Step-IsOrderly :
      {x y : Threads d}
      → (strict ≡ true → cfg.drop ≡ false)
      → IsOrderly d strict n x
      → IsCalm x
      → Step cfg d x y
      → IsOrderly d strict n y
  unfolding prepare start let_start report
  Step-IsOrderly {x} never h calm (consumes c t e) =
      consumes-orderly x.chan c x.taking t x.aligning x.sending h calm e
  Step-IsOrderly {x} never h calm (aligns tsc c a e) =
      subst
        (λ (s : Channel d × Aligning).
          IsOrdered d strict n s.0 x.taking.place x.taking.packet x.taking.locals s.1 x.sending)
        e
        (align_access-ordered d laws strict n x.taking.place x.taking.packet x.taking.locals
          x.sending cfg tsc x.chan x.aligning never h)
  Step-IsOrderly {x} never h calm (sends c g s e) =
      send_access-ordered cfg d laws strict n x.chan x.taking.place x.taking.packet x.taking.locals
        x.aligning x.sending x.sender (c, g, s) h e
  Step-IsOrderly never h calm (delivers r m mem new) = record {
    tidy = h.tidy;
    knows = h.knows;
    patient = h.patient;
    counted = h.counted;
    room_announced = h.room_announced;
    room_passed = h.room_passed;
    bytes = new;
  }
  Step-IsOrderly {x} never h calm prepares =
      flagged x x.chan.timer_init true x.chan.assem_init x.chan.last_count x.chan.last_forward h
  Step-IsOrderly {x} never h calm starts =
      flagged x x.chan.timer_init x.chan.send_thread_init true x.chan.last_count x.chan.last_forward
        h
  Step-IsOrderly {x} never h calm permits =
      flagged x true x.chan.send_thread_init x.chan.assem_init x.chan.last_count x.chan.last_forward
        h
  Step-IsOrderly {x} never h calm (reports count forward) =
      flagged x x.chan.timer_init x.chan.send_thread_init x.chan.assem_init count forward h

  -- In whatever order the threads have their accesses, an orderly channel stays orderly, as long as
  -- each packet that is met is valid and the pool is not empty when a frame is got: no frame is in
  -- two places, the pool, the rings and the hands of the threads together always have `n` frames, so
  -- that none of the `n` is lost, a frame in use stands in the index at its own number and nowhere
  -- else, and the rings have room. Without DROP, and as long as each packet that is met also belongs to no frame that is
  -- complete or has gone on, it stays strictly so: frames that have left the align thread have all
  -- of their packets until they are emptied, and those that are free are empty.
  pub Run-IsOrderly :
      {x y : Threads d}
      → (strict ≡ true → cfg.drop ≡ false)
      → IsOrderly d strict n x
      → Run cfg d IsCalm x y
      → IsOrderly d strict n y
  Run-IsOrderly never h here = h
  Run-IsOrderly never h (next r calm st) = Step-IsOrderly never (Run-IsOrderly never h r) calm st
