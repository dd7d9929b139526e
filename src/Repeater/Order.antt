-- ===== src/Repeater/Order.antt =====
-- The messages are handled in the order in which they were made, however the two threads take
-- turns.
use mathlib.Core.List.{append_assoc}
use dpdk_udp_receiver.Common.{
  ℕ, ◌+◌, ◌≤◌, ◌≡◌, ◌∙◌, refl, sym, ap, arith, true, false, none, some, List, [], ◌∷◌, ◌++◌, map,
  times, times-append, update, update_self, ==_iff,
}
use dpdk_udp_receiver.Dpdk.{Dpdk, Lawful}
use dpdk_udp_receiver.Dpdk.Laws.{times-dequeue, times-get, times-put}
use dpdk_udp_receiver.Route.Rings.{Registry}
use dpdk_udp_receiver.Route.{DhsmMessage, RouteTable, handle_msg}
use dpdk_udp_receiver.Repeater.{Desk, command, advance, thread1_round, thread2_round}

module _ (d : Dpdk) (g : Registry) where
  -- Rounds of both threads in any order, with the messages that were put into the ring so far and
  -- those handled so far. A message for which the ring has no room is lost, and its buffer with it.
  -- A round that finds no buffer or no message changes nothing.
  pub data Turns (x : Desk d g) : List DhsmMessage → List DhsmMessage → Desk d g → Type 0 where
    begin : Turns x [] [] x
    makes :
        {ms hs : List DhsmMessage} {y : Desk d g} (o : ℕ) (rest : d.Pool)
        → Turns x ms hs y
        → d.get y.app_id_mempool ≡ some (o, rest)
        → (d.enqueue o y.app_id_ring).0 ≡ true
        → Turns x (ms ++ (command y.maker ∷ [])) hs (thread2_round d g y)
    loses :
        {ms hs : List DhsmMessage} {y : Desk d g} (o : ℕ) (rest : d.Pool)
        → Turns x ms hs y
        → d.get y.app_id_mempool ≡ some (o, rest)
        → (d.enqueue o y.app_id_ring).0 ≡ false
        → Turns x ms hs (thread2_round d g y)
    starves :
        {ms hs : List DhsmMessage} {y : Desk d g}
        → Turns x ms hs y
        → d.get y.app_id_mempool ≡ none
        → Turns x ms hs (thread2_round d g y)
    rests :
        {ms hs : List DhsmMessage} {y : Desk d g}
        → Turns x ms hs y
        → d.dequeue y.app_id_ring ≡ none
        → Turns x ms hs (thread1_round d g y)
    handles :
        {ms hs : List DhsmMessage} {y : Desk d g} (o : ℕ) (rest : d.Ring)
        → Turns x ms hs y
        → d.dequeue y.app_id_ring ≡ some (o, rest)
        → Turns x ms (hs ++ (y.messages o ∷ [])) (thread1_round d g y)

  -- The messages that wait in the ring.
  abbrev pub pending : Desk d g → List DhsmMessage
  pending s = map s.messages (d.objects s.app_id_ring)

  -- Each buffer is in one place, the pool or the ring, and there once.
  abbrev pub IsOnce : Desk d g → Type 0
  IsOnce s = (o : ℕ) → times o (d.free s.app_id_mempool) + times o (d.objects s.app_id_ring) ≤ 1

-- A run of messages, handled one after the other.
unfoldable pub handle_all :
    (g : Registry) → List DhsmMessage → RouteTable × g.State → RouteTable × g.State
handle_all g [] s = s
handle_all g (m ∷ ms) s = handle_all g ms (handle_msg g (some m) s).1

handle_all-append :
    (g : Registry) (ms : List DhsmMessage) (m : DhsmMessage) (s : RouteTable × g.State)
    → handle_all g (ms ++ (m ∷ [])) s ≡ (handle_msg g (some m) (handle_all g ms s)).1
unfolding handle_all
handle_all-append g [] m s = refl
handle_all-append g (n ∷ ms) m s = handle_all-append g ms m (handle_msg g (some n) s).1

times_one : (o : ℕ) → times o (o ∷ []) ≡ 1
times_one o = ground (arith, ==_iff o o)

map-update :
    (f : ℕ → DhsmMessage) (o : ℕ) (m : DhsmMessage) (os : List ℕ)
    → times o os ≡ 0
    → map (update f o m) os ≡ map f os
map-update f o m [] h = refl
map-update f o m (p ∷ os) h = ground (arith, ==_iff o p, ==_iff p o, map-update f o m os)

map-append-one :
    (f : ℕ → DhsmMessage) (os : List ℕ) (o : ℕ) → map f (os ++ (o ∷ [])) ≡ map f os ++ (f o ∷ [])
map-append-one f [] o = refl
map-append-one f (p ∷ os) o = ap (λ l. f p ∷ l) (map-append-one f os o)

module _ (d : Dpdk) (g : Registry) (laws : Lawful d) where
  enqueue-true :
      (o : ℕ) (r : d.Ring)
      → (d.enqueue o r).0 ≡ true
      → d.objects (d.enqueue o r).1 ≡ d.objects r ++ (o ∷ [])
  enqueue-true o r e = ground (arith, laws.enqueue_room o r, laws.enqueue_full o r)

  thread2_round-some :
      (o : ℕ) (rest : d.Pool) (y : Desk d g)
      → d.get y.app_id_mempool ≡ some (o, rest)
      → thread2_round d g y ≡ record y {
        app_id_mempool = rest;
        messages = update y.messages o (command y.maker);
        app_id_ring = (d.enqueue o y.app_id_ring).1;
        maker = advance y.maker;
      }
  unfolding thread2_round
  thread2_round-some o rest y got = rw (got, thread2_round)

  thread1_round-some :
      (o : ℕ) (rest : d.Ring) (y : Desk d g)
      → d.dequeue y.app_id_ring ≡ some (o, rest)
      → thread1_round d g y ≡ (
          let (t, rings) = (handle_msg g (some (y.messages o)) (y.table, y.rings)).1 in
          record y {
            app_id_ring = rest;
            app_id_mempool = d.put o y.app_id_mempool;
            table = t;
            rings = rings;
          })
  unfolding thread1_round
  thread1_round-some o rest y got = rw (got, thread1_round)

  pending-thread2_round :
      (o : ℕ) (rest : d.Pool) (y : Desk d g)
      → IsOnce d g y
      → d.get y.app_id_mempool ≡ some (o, rest)
      → (d.enqueue o y.app_id_ring).0 ≡ true
      → (pending d g (thread2_round d g y) ≡ pending d g y ++ (command y.maker ∷ []))
        × IsOnce d g (thread2_round d g y)
        × (◌≡◌ {A = RouteTable × g.State}
            ((thread2_round d g y).table, (thread2_round d g y).rings)
            (y.table, y.rings))
  pending-thread2_round o rest y once got room =
      let f = update y.messages o (command y.maker) in
      let os = d.objects y.app_id_ring in
      rw (thread2_round-some o rest y got) (
        ap (map f) (enqueue-true o y.app_id_ring room)
            ∙ map-append-one f os o
            ∙ rw (
              update_self y.messages o (command y.maker),
              map-update y.messages o (command y.maker) os (
                  omega
                    (arith, once o, times-get d laws o o y.app_id_mempool rest got, times_one o)),
            ),
        (λ p. omega (
          arith,
          once p,
          times-get d laws p o y.app_id_mempool rest got,
          ap (times p) (enqueue-true o y.app_id_ring room),
          times-append p os (o ∷ []),
        )),
        refl,
      )

  enqueue-false :
      (o : ℕ) (r : d.Ring) → (d.enqueue o r).0 ≡ false → d.objects (d.enqueue o r).1 ≡ d.objects r
  enqueue-false o r e = ground (arith, laws.enqueue_room o r, laws.enqueue_full o r)

  lost-thread2_round :
      (o : ℕ) (rest : d.Pool) (y : Desk d g)
      → IsOnce d g y
      → d.get y.app_id_mempool ≡ some (o, rest)
      → (d.enqueue o y.app_id_ring).0 ≡ false
      → (pending d g (thread2_round d g y) ≡ pending d g y)
        × IsOnce d g (thread2_round d g y)
        × (◌≡◌ {A = RouteTable × g.State}
            ((thread2_round d g y).table, (thread2_round d g y).rings)
            (y.table, y.rings))
  lost-thread2_round o rest y once got full =
      let f = update y.messages o (command y.maker) in
      let os = d.objects y.app_id_ring in
      rw (thread2_round-some o rest y got) (
        ap (map f) (enqueue-false o y.app_id_ring full)
            ∙ map-update y.messages o (command y.maker) os (
                omega (arith, once o, times-get d laws o o y.app_id_mempool rest got, times_one o)),
        (λ p. omega (
          arith,
          once p,
          times-get d laws p o y.app_id_mempool rest got,
          ap (times p) (enqueue-false o y.app_id_ring full),
        )),
        refl,
      )

  pending-thread1_round :
      (o : ℕ) (rest : d.Ring) (y : Desk d g)
      → IsOnce d g y
      → d.dequeue y.app_id_ring ≡ some (o, rest)
      → (pending d g y ≡ y.messages o ∷ pending d g (thread1_round d g y))
        × IsOnce d g (thread1_round d g y)
        × (◌≡◌ {A = RouteTable × g.State}
            ((thread1_round d g y).table, (thread1_round d g y).rings)
            (handle_msg g (some (y.messages o)) (y.table, y.rings)).1)
  pending-thread1_round o rest y once got = rw (thread1_round-some o rest y got) (
    ap (map y.messages) (laws.dequeue_some o y.app_id_ring rest got).0,
    (λ p. omega (
      arith,
      once p,
      times-dequeue d laws p o y.app_id_ring rest got,
      times-put d laws p o y.app_id_mempool,
    )),
    refl,
  )

  -- From an empty ring and with each buffer in one place, whatever turns the threads take,
  -- those in which the ring is full or empty or the pool is empty included: the messages that were
  -- handled, followed by those that wait in the ring, are the messages that were put into the ring,
  -- in their order, and those for which it had no room are lost; and the route table is what handling the former one after the other makes
  -- of the first one.
  pub Turns-order :
      {x y : Desk d g} {ms hs : List DhsmMessage}
      → d.objects x.app_id_ring ≡ []
      → IsOnce d g x
      → Turns d g x ms hs y
      → (hs ++ pending d g y ≡ ms)
        × IsOnce d g y
        × (◌≡◌ {A = RouteTable × g.State} (y.table, y.rings) (handle_all g hs (x.table, x.rings)))
  unfolding handle_all thread1_round thread2_round
  Turns-order empty once begin = (ap (map _) empty, once, refl)
  Turns-order empty once (makes {ms = ms} {hs = hs} {y = y} o rest r got room) =
      let (before, once', same) = Turns-order empty once r in
      let (after, once'', table) = pending-thread2_round o rest y once' got room in
      (
        ap (λ l. hs ++ l) after
            ∙ sym (append_assoc hs (pending d g y) (command y.maker ∷ []))
            ∙ ap (λ l. l ++ (command y.maker ∷ [])) before,
        once'',
        table ∙ same,
      )
  Turns-order empty once (loses {hs = hs} {y = y} o rest r got full) =
      let (before, once', same) = Turns-order empty once r in
      let (after, once'', table) = lost-thread2_round o rest y once' got full in
      (ap (λ l. hs ++ l) after ∙ before, once'', table ∙ same)
  Turns-order empty once (starves r none_free) =
      rw (none_free, thread2_round) (Turns-order empty once r)
  Turns-order empty once (rests r nothing) = rw (nothing, thread1_round) (Turns-order empty once r)
  Turns-order {x} empty once (handles {ms = ms} {hs = hs} {y = y} o rest r got) =
      let (before, once', same) = Turns-order empty once r in
      let (after, once'', table) = pending-thread1_round o rest y once' got in
      (
        append_assoc hs (y.messages o ∷ []) (pending d g (thread1_round d g y))
            ∙ ap (λ l. hs ++ l) (sym after)
            ∙ before,
        once'',
        table
            ∙ ap (λ s. (handle_msg g (some (y.messages o)) s).1) same
            ∙ sym (handle_all-append g hs (y.messages o) (x.table, x.rings)),
      )
