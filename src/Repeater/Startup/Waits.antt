-- ===== src/Repeater/Startup/Waits.antt =====
-- The wait of `thread2` is long enough: what it looks up is there.
use dpdk_udp_receiver.Common.{
  IsGiven, given-some, ℕ, ◌≡◌, refl, sym, subst, ◌∙◌, true, false, some, List, [], ◌∷◌, Result, ok,
  Bool-cases, inl, inr,
}
use dpdk_udp_receiver.Repeater.Buffers.{app_id_ring_size, Side, thread1, thread2}
use dpdk_udp_receiver.Repeater.Startup.{
  Directory, app_id_ring_name, app_id_mempool_name, Phase1, makes_ring, makes_mempool, tests,
  sets_init, serves, Phase2, waits_init, looks_up_ring, looks_up_mempool, tests_found, commands,
  Startup, at_start, first_step, second_step, step, steps,
}

-- What the documentation promises of the calls: what was made is found under its name, also after a
-- pool was made.
pub record IsDirectory (e : Directory) : Type 0 where
  pub ring_found :
      (name : List ℕ) (n r : ℕ) (s : e.State)
      → (e.ring_create name n s).0 ≡ some r
      → e.ring_lookup name (e.ring_create name n s).1 ≡ some r
  pub mempool_found :
      (name : List ℕ) (n m : ℕ) (s : e.State)
      → (e.mempool_create name n s).0 ≡ some m
      → e.mempool_lookup name (e.mempool_create name n s).1 ≡ some m
  pub ring_stays :
      (name other : List ℕ) (n : ℕ) (s : e.State)
      → e.ring_lookup name (e.mempool_create other n s).1 ≡ e.ring_lookup name s

module _ (e : Directory) where
  -- What is there of the ring, and of the pool, where `thread1` is.
  abbrev pub RingMade : Startup e → Type 0
  RingMade x =
      (r : ℕ) × (x.app_id_ring ≡ some r) × (e.ring_lookup app_id_ring_name x.state ≡ some r)

  abbrev pub PoolMade : Startup e → Type 0
  PoolMade x =
      (m : ℕ) × (x.app_id_mempool ≡ some m)
      × (e.mempool_lookup app_id_mempool_name x.state ≡ some m)

  abbrev pub Made : Phase1 → Startup e → Type 0
  Made makes_ring x = x.init ≡ false
  Made makes_mempool x = (x.init ≡ false) × RingMade x
  Made tests x = (x.init ≡ false) × RingMade x × PoolMade x
  Made sets_init x = (x.init ≡ false) × RingMade x × PoolMade x
  Made serves x = (x.init ≡ true) × RingMade x × PoolMade x

  -- What `thread2` has, where it is: what the globals have.
  abbrev pub Found : Phase2 → Startup e → Type 0
  Found waits_init x = Unit
  Found looks_up_ring x = x.first ≡ serves
  Found (looks_up_mempool r) x = (x.first ≡ serves) × (r ≡ x.app_id_ring)
  Found (tests_found r m) x = (x.first ≡ serves) × (r ≡ x.app_id_ring) × (m ≡ x.app_id_mempool)
  Found (commands r m) x = (x.first ≡ serves) × (r ≡ x.app_id_ring) × (m ≡ x.app_id_mempool)

  pub record IsOrdered (x : Startup e) : Type 0 where
    pub made : Made x.first x
    pub found : Found x.second x

  module _ (laws : IsDirectory e)
      (rings : (name : List ℕ) (n : ℕ) (s : e.State) → IsGiven (e.ring_create name n s).0)
      (pools : (name : List ℕ) (n : ℕ) (s : e.State) → IsGiven (e.mempool_create name n s).0) where
    -- A step ends well in an ordered state.
    abbrev pub Ordered : Result (Startup e) → Type 0
    Ordered r = (y : Startup e) × (r ≡ ok y) × IsOrdered y

    not_serving : (q : Phase2) (x y : Startup e) → (x.first ≡ serves → ⊥) → Found q x → Found q y
    not_serving waits_init x y ne h = tt
    not_serving looks_up_ring x y ne h = absurd (ne h)
    not_serving (looks_up_mempool r) x y ne h = absurd (ne h.0)
    not_serving (tests_found r m) x y ne h = absurd (ne h.0)
    not_serving (commands r m) x y ne h = absurd (ne h.0)

    first-Ordered :
        (x : Startup e) (phase : Phase1)
        → x.first ≡ phase
        → Made phase x
        → Found x.second x
        → Ordered (first_step e phase x)
    unfolding first_step
    first-Ordered x makes_ring at made found =
        let (r, here) = given-some _ (rings app_id_ring_name app_id_ring_size x.state) in
        (
          _,
          refl,
          record {
            made = (made, (r, here, laws.ring_found app_id_ring_name _ r x.state here));
            found = not_serving x.second x _ (λ k. cc (at, k)) found;
          },
        )
    first-Ordered x makes_mempool at (unset, (r, held, listed)) found =
        let (m, here) = given-some _ (pools app_id_mempool_name app_id_ring_size x.state) in
        (
          _,
          refl,
          record {
            made = (
              unset,
              (r, held, laws.ring_stays app_id_ring_name app_id_mempool_name _ x.state ∙ listed),
              (m, here, laws.mempool_found app_id_mempool_name _ m x.state here),
            );
            found = not_serving x.second x _ (λ k. cc (at, k)) found;
          },
        )
    first-Ordered x tests at (unset, (r, held, listed), (m, kept, known)) found = (
      record x { first = sets_init },
      rw (kept, held) refl,
      record {
        made = (unset, (r, held, listed), (m, kept, known));
        found = not_serving x.second x _ (λ k. cc (at, k)) found;
      },
    )
    first-Ordered x sets_init at (unset, ring, pool) found = (
      _,
      refl,
      record {
        made = (refl, ring, pool);
        found = not_serving x.second x _ (λ k. cc (at, k)) found;
      },
    )
    first-Ordered x serves at made found =
        (x, refl, record { made = subst (λ (p : Phase1). Made p x) (sym at) made; found = found })

    -- In its loop, `thread1` has made both and set the flag.
    serving : (x : Startup e) → x.first ≡ serves → Made x.first x → Made serves x
    serving x at made = subst (λ (p : Phase1). Made p x) at made

    flag_set : (x : Startup e) (p : Phase1) → Made p x → x.init ≡ true → p ≡ serves
    flag_set x makes_ring made on = cc
    flag_set x makes_mempool made on = cc (made.0, on)
    flag_set x tests made on = cc (made.0, on)
    flag_set x sets_init made on = cc (made.0, on)
    flag_set x serves made on = refl

    -- What is made does not depend on where `thread2` is.
    made_still :
        (p : Phase1) (x : Startup e) (q : Phase2) → Made p x → Made p (record x { second = q })
    made_still makes_ring x q h = h
    made_still makes_mempool x q h = h
    made_still tests x q h = h
    made_still sets_init x q h = h
    made_still serves x q h = h

    second-Ordered :
        (x : Startup e) (phase : Phase2)
        → x.second ≡ phase
        → Made x.first x
        → Found phase x
        → Ordered (second_step e phase x)
    unfolding second_step
    second-Ordered x waits_init at made found = elim (Bool-cases x.init) [
      | inl on ↦ (
        record x { second = looks_up_ring },
        rw on refl,
        record {
          made = made_still x.first x looks_up_ring made;
          found = flag_set x x.first made on;
        },
      )
      | inr off ↦ (
        x,
        rw off refl,
        record { made = made; found = subst (λ (p : Phase2). Found p x) (sym at) found },
      )
    ]
    second-Ordered x looks_up_ring at made found =
        let (on, (r, held, listed), pool) = serving x found made in
        (
          _,
          refl,
          record {
            made = made_still x.first x (looks_up_mempool _) made;
            found = (found, listed ∙ sym held);
          },
        )
    second-Ordered x (looks_up_mempool r) at made (serving_now, same) =
        let (on, ring, (m, kept, known)) = serving x serving_now made in
        (
          _,
          refl,
          record {
            made = made_still x.first x (tests_found r _) made;
            found = (serving_now, same, known ∙ sym kept);
          },
        )
    second-Ordered x (tests_found r m) at made (serving_now, same, equal) =
        let (on, (a, held, listed), (b, kept, known)) = serving x serving_now made in
        (
          record x { second = commands r m },
          rw (same, equal, held, kept) refl,
          record {
            made = made_still x.first x (commands r m) made;
            found = (serving_now, same, equal);
          },
        )
    second-Ordered x (commands r m) at made found =
        (x, refl, record { made = made; found = subst (λ (p : Phase2). Found p x) (sym at) found })

    pub step-Ordered : (t : Side) (x : Startup e) → IsOrdered x → Ordered (step e t x)
    unfolding step
    step-Ordered thread1 x h = first-Ordered x x.first refl h.made h.found
    step-Ordered thread2 x h = second-Ordered x x.second refl h.made h.found

    pub steps-Ordered : (ts : List Side) (x : Startup e) → IsOrdered x → Ordered (steps e ts x)
    unfolding steps
    steps-Ordered [] x h = (x, refl, h)
    steps-Ordered (t ∷ ts) x h =
        let (y, returned, now) = step-Ordered t x h in
        let (z, later, then_now) = steps-Ordered ts y now in (z, rw returned later, then_now)

    -- When the calls that make the ring and the pool do not fail, no order of the steps leads to
    -- rte_panic. Once `thread2` has seen the flag, `thread1` is in its loop, and the ring and the
    -- pool that `thread2` has looked up are those of the globals.
    pub steps-agree :
        (ts : List Side) (s : e.State)
        → (y : Startup e) × (steps e ts (at_start e s) ≡ ok y) × Found y.second y
    unfolding at_start
    steps-agree ts s =
        let (y, returned, h) =
          steps-Ordered ts (at_start e s) (record { made = refl; found = tt }) in
        (y, returned, h.found)
