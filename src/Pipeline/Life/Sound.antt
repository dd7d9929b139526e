-- ===== src/Pipeline/Life/Sound.antt =====
-- Every move keeps the frames of a channel sound.
use dpdk_udp_receiver.Common.{
  ℕ, ◌<◌, ◌≡◌, arith, none, some, times, length, update, update_ne, Bool-cases, inl, inr, ◌==◌,
}
use dpdk_udp_receiver.Dpdk.{Dpdk, Lawful}
use dpdk_udp_receiver.Dpdk.Laws.{
  times-enqueue, length-enqueue, times-dequeue, length-dequeue, times-get, length-get, times-put,
  length-put,
}
use dpdk_udp_receiver.Channel.{Frame}
use dpdk_udp_receiver.Pipeline.Life.{
  Life, IsEmpty, Move, stay, fill, start, take_up, pass, give, IsSound,
}

module _ (d : Dpdk) (laws : Lawful d) (n : ℕ) (v : Life d) (h : IsSound d n v) where
  fill-IsSound :
      (s f : ℕ) (g : Frame)
      → v.index s ≡ some f
      → g.frame_seq ≡ (v.frames f).frame_seq
      → IsSound d n (record v { frames = update v.frames f g })
  fill-IsSound s f g at same = record {
    once = h.once;
    total = h.total;
    room_announced = h.room_announced;
    room_passed = h.room_passed;
    indexed = λ s' f' e. ground (arith, h.indexed s' f' e);
    found = λ f' b. ground (arith, h.found f' b);
    empty =
        λ f' b. rw (update_ne v.frames f f' g (ground (arith, h.indexed s f at))) (h.empty f' b);
  }

  start-IsSound :
      (s f : ℕ) (m : d.Pool) (g : Frame)
      → s < 65536
      → v.index s ≡ none
      → d.get v.pool ≡ some (f, m)
      → g.frame_seq ≡ s
      → IsSound d n (record v {
        index = update v.index s (some f);
        pool = m;
        announced = (d.enqueue f v.announced).1;
        frames = update v.frames f g;
      })
  start-IsSound s f m g small unused got named =
      let room : length (d.objects v.announced) < d.capacity v.announced =
        omega (arith, h.total, h.room_announced, length-get d laws f v.pool m got) in
      record {
        once = λ o. omega (
          arith,
          h.once o,
          times-get d laws o f v.pool m got,
          times-enqueue d laws o f v.announced room,
        );
        total = omega (
          arith,
          h.total,
          length-get d laws f v.pool m got,
          length-enqueue d laws f v.announced room,
        );
        room_announced = rw (laws.capacity_enqueue f v.announced) h.room_announced;
        room_passed = h.room_passed;
        indexed = λ s' f' e. ground (
          arith,
          h.indexed s' f',
          h.once f',
          h.once f,
          times-get d laws f' f v.pool m got,
          times-get d laws f f v.pool m got,
        );
        found = λ f' b. ground (arith, h.found f', times-enqueue d laws f' f v.announced room);
        empty = λ f' b.
            let freed : 0 < times f' (d.free v.pool) =
              omega (arith, times-get d laws f' f v.pool m got) in
            rw
              (update_ne v.frames f f' g
                (ground (arith, h.once f', times-get d laws f' f v.pool m got)))
              (h.empty f' freed);
      }

  take_up-IsSound :
      (f : ℕ) (rest : d.Ring)
      → v.hand ≡ none
      → d.dequeue v.announced ≡ some (f, rest)
      → IsSound d n (record v { announced = rest; hand = some f })
  take_up-IsSound f rest free got = record {
    once = λ o. ground (arith, h.once o, times-dequeue d laws o f v.announced rest got);
    total = ground (arith, h.total, length-dequeue d laws f v.announced rest got);
    room_announced = rw (laws.dequeue_some f v.announced rest got).1 h.room_announced;
    room_passed = h.room_passed;
    indexed = h.indexed;
    found = λ f' b. h.found f' (ground (arith, times-dequeue d laws f' f v.announced rest got));
    empty = h.empty;
  }

  pass-IsSound :
      (f : ℕ) (g : Frame)
      → v.hand ≡ some f
      → g.frame_seq ≡ (v.frames f).frame_seq
      → IsSound d n (record v {
        hand = none;
        passed = (d.enqueue f v.passed).1;
        frames = update v.frames f g;
      })
  pass-IsSound f g held same =
      let room : length (d.objects v.passed) < d.capacity v.passed =
        ground (arith, h.total, h.room_passed) in
      record {
        once = λ o. ground (arith, h.once o, times-enqueue d laws o f v.passed room);
        total = ground (arith, h.total, length-enqueue d laws f v.passed room);
        room_announced = h.room_announced;
        room_passed = rw (laws.capacity_enqueue f v.passed) h.room_passed;
        indexed = λ s' f' e. ground (arith, h.indexed s' f' e);
        found = λ f' b. ground (arith, h.found f', times-enqueue d laws f' f v.passed room);
        empty = λ f' b. rw (update_ne v.frames f f' g (ground (arith, h.once f'))) (h.empty f' b);
      }

  give-IsSound :
      (f : ℕ) (rest : d.Ring) (g : Frame)
      → d.dequeue v.passed ≡ some (f, rest)
      → IsEmpty g
      → g.frame_seq ≡ (v.frames f).frame_seq
      → IsSound d n (record v {
        index = update v.index (v.frames f).frame_seq none;
        pool = d.put f v.pool;
        passed = rest;
        frames = update v.frames f g;
      })
  give-IsSound f rest g got clean same = record {
    once = λ o.
        omega (
          arith,
          h.once o,
          times-dequeue d laws o f v.passed rest got,
          times-put d laws o f v.pool,
        );
    total =
        omega
          (arith, h.total, length-dequeue d laws f v.passed rest got, length-put d laws f v.pool);
    room_announced = h.room_announced;
    room_passed = rw (laws.dequeue_some f v.passed rest got).1 h.room_passed;
    indexed = λ s' f' e. ground (
      arith,
      h.indexed s' f',
      h.once f,
      h.found f,
      times-dequeue d laws f f v.passed rest got,
      times-put d laws f' f v.pool,
    );
    found = λ f' b. ground (
      arith,
      h.found f',
      h.found f,
      h.once f',
      times-dequeue d laws f' f v.passed rest got,
      times-dequeue d laws f f v.passed rest got,
    );
    empty = λ f' b. elim (Bool-cases (f == f')) [
      | inl e ↦ rw e clean
      | inr e ↦ rw e (h.empty f' (ground (arith, times-put d laws f' f v.pool)))
    ];
  }

-- Every move keeps the frames sound.
pub Move-IsSound :
    (d : Dpdk) (laws : Lawful d) (n : ℕ) {v w : Life d} → IsSound d n v → Move d v w → IsSound d n w
Move-IsSound d laws n h stay = h
Move-IsSound d laws n {v = v} h (fill s f g at same) = fill-IsSound d laws n v h s f g at same
Move-IsSound d laws n {v = v} h (start s f m g small unused got named) =
    start-IsSound d laws n v h s f m g small unused got named
Move-IsSound d laws n {v = v} h (take_up f rest free got) =
    take_up-IsSound d laws n v h f rest free got
Move-IsSound d laws n {v = v} h (pass f g held same) = pass-IsSound d laws n v h f g held same
Move-IsSound d laws n {v = v} h (give f rest g got clean same) =
    give-IsSound d laws n v h f rest g got clean same
