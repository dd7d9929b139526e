-- ===== src/Repeater/Startup/Served.antt =====
-- Both threads of the repeater get to their loops.
use dpdk_udp_receiver.Common.{
  ok-injective, ℕ, zero, suc, ◌-◌, ◌≤◌, ◌≡◌, refl, sym, ap, subst, ◌∙◌, arith, Bool, true, false,
  Option, List, [], ◌∷◌, ◌++◌, Result, ok, fault, panic, ◌>>=◌, IsGiven, if◌then◌else◌,
}
use dpdk_udp_receiver.Repeater.Buffers.{Side, thread1, thread2}
use dpdk_udp_receiver.Repeater.Startup.{
  Directory, Phase1, makes_ring, makes_mempool, tests, sets_init, serves, Phase2, waits_init,
  looks_up_ring, looks_up_mempool, tests_found, commands, Startup, at_start, first_step,
  second_step, step, steps,
}
use dpdk_udp_receiver.Repeater.Startup.Waits.{
  IsDirectory, IsOrdered, Found, Made, step-Ordered, steps-Ordered,
}

-- How many steps a thread has left before its loop.
abbrev left1 : Phase1 → ℕ
left1 makes_ring = 4
left1 makes_mempool = 3
left1 tests = 2
left1 sets_init = 1
left1 serves = 0

abbrev left2 : Phase2 → ℕ
left2 waits_init = 4
left2 looks_up_ring = 3
left2 (looks_up_mempool r) = 2
left2 (tests_found r m) = 1
left2 (commands r m) = 0

left1-le : (p : Phase1) → left1 p ≤ 4
left1-le makes_ring = omega arith
left1-le makes_mempool = omega arith
left1-le tests = omega arith
left1-le sets_init = omega arith
left1-le serves = omega arith

left2-le : (p : Phase2) → left2 p ≤ 4
left2-le waits_init = omega arith
left2-le looks_up_ring = omega arith
left2-le (looks_up_mempool r) = omega arith
left2-le (tests_found r m) = omega arith
left2-le (commands r m) = omega arith

left1-zero : (p : Phase1) → left1 p ≡ 0 → p ≡ serves
left1-zero makes_ring h = absurd (omega (arith, h))
left1-zero makes_mempool h = absurd (omega (arith, h))
left1-zero tests h = absurd (omega (arith, h))
left1-zero sets_init h = absurd (omega (arith, h))
left1-zero serves h = refl

left2-zero : (p : Phase2) → left2 p ≡ 0 → (r m : Option ℕ) × (p ≡ commands r m)
left2-zero waits_init h = absurd (omega (arith, h))
left2-zero looks_up_ring h = absurd (omega (arith, h))
left2-zero (looks_up_mempool r) h = absurd (omega (arith, h))
left2-zero (tests_found r m) h = absurd (omega (arith, h))
left2-zero (commands r m) h = (r, m, refl)

-- What passes both tests.
passes :
    {A : Type 0} (a b : Bool) (s y : A)
    → (if a then (if b then ok s else panic) else panic) ≡ ok y
    → s ≡ y
passes true true s y h = cc
passes true false s y h = cc
passes false b s y h = cc

-- `n` steps of a thread, and then others.
abbrev pub again : Side → ℕ → List Side → List Side
again t zero ts = ts
again t (suc n) ts = t ∷ again t n ts

module _ (e : Directory) where
  first-left :
      (p : Phase1) (x y : Startup e)
      → x.first ≡ p
      → first_step e p x ≡ ok y
      → left1 y.first ≡ left1 p - 1
  unfolding first_step
  first-left makes_ring x y at h = ap (λ (z : Startup e). left1 z.first) (sym (ok-injective h))
  first-left makes_mempool x y at h = ap (λ (z : Startup e). left1 z.first) (sym (ok-injective h))
  first-left tests x y at h = ap (λ (z : Startup e). left1 z.first) (sym (passes _ _ _ y h))
  first-left sets_init x y at h = ap (λ (z : Startup e). left1 z.first) (sym (ok-injective h))
  first-left serves x y at h =
      ap (λ (z : Startup e). left1 z.first) (sym (ok-injective h)) ∙ ap left1 at

  -- What a step of `thread2` does when the flag is set.
  abbrev Nearer : Phase2 → Startup e → Startup e → Type 0
  Nearer p x y = (left2 y.second ≡ left2 p - 1) × (y.first ≡ x.first) × (y.init ≡ x.init)

  second-left :
      (p : Phase2) (x y : Startup e)
      → x.second ≡ p
      → x.init ≡ true
      → second_step e p x ≡ ok y
      → Nearer p x y
  unfolding second_step
  second-left waits_init x y at on h =
      subst (Nearer waits_init x)
        (ok-injective
          (ap (λ b. ok (if b then record x { second = looks_up_ring } else x)) (sym on) ∙ h))
        (refl, refl, refl)
  second-left looks_up_ring x y at on h =
      subst (Nearer looks_up_ring x) (ok-injective h) (refl, refl, refl)
  second-left (looks_up_mempool r) x y at on h =
      subst (Nearer (looks_up_mempool r) x) (ok-injective h) (refl, refl, refl)
  second-left (tests_found r m) x y at on h =
      subst (Nearer (tests_found r m) x) (passes _ _ _ y h) (refl, refl, refl)
  second-left (commands r m) x y at on h =
      subst (Nearer (commands r m) x) (ok-injective h) (ap left2 at, refl, refl)

  steps-append :
      (ts us : List Side) (x y : Startup e)
      → steps e ts x ≡ ok y
      → steps e (ts ++ us) x ≡ steps e us y
  unfolding steps
  steps-append [] us x y h = ap (steps e us) (ok-injective h)
  steps-append (t ∷ ts) us x y h = after (step e t x) (λ z k. steps-append ts us z y k) h
    where
      after :
          (r : Result (Startup e))
          → ((z : Startup e) → steps e ts z ≡ ok y → steps e (ts ++ us) z ≡ steps e us y)
          → (r >>= λ z. steps e ts z) ≡ ok y
          → (r >>= λ z. steps e (ts ++ us) z) ≡ steps e us y
      after (ok z) go k = go z k
      after fault go k = cc
      after panic go k = cc

  module _ (laws : IsDirectory e)
      (rings : (name : List ℕ) (n : ℕ) (s : e.State) → IsGiven (e.ring_create name n s).0)
      (pools : (name : List ℕ) (n : ℕ) (s : e.State) → IsGiven (e.mempool_create name n s).0) where
    first_steps :
        (n : ℕ) (us : List Side) (x : Startup e)
        → IsOrdered e x
        → (y : Startup e) × (steps e (again thread1 n us) x ≡ steps e us y)
          × IsOrdered e y
          × (left1 y.first ≤ left1 x.first - n)
    unfolding steps step
    first_steps zero us x h = (x, refl, h, omega arith)
    first_steps (suc n) us x h =
        let (y, returned, now) = step-Ordered e laws rings pools thread1 x h in
        let nearer = first-left x.first x y refl returned in
        let (z, later, then_now, left) = first_steps n us y now in
        (z, rw returned later, then_now, omega (arith, nearer, left))

    second_steps :
        (n : ℕ) (x : Startup e)
        → IsOrdered e x
        → x.first ≡ serves
        → (y : Startup e) × (steps e (again thread2 n []) x ≡ ok y)
          × IsOrdered e y
          × (left2 y.second ≤ left2 x.second - n)
          × (y.first ≡ serves)
    unfolding steps step
    second_steps zero x h at = (x, refl, h, omega arith, at)
    second_steps (suc n) x h at =
        let (y, returned, now) = step-Ordered e laws rings pools thread2 x h in
        let on = (subst (λ (p : Phase1). Made e p x) at h.made).0 in
        let (nearer, same, still) = second-left x.second x y refl on returned in
        let (z, later, then_now, left, there) = second_steps n y now (same ∙ at) in
        (z, rw returned later, then_now, omega (arith, nearer, left), there)

    -- When the calls that make the ring and the pool do not fail: whatever steps the threads have
    -- had, four more of `thread1` and then four more of `thread2` bring both into their loops,
    -- `thread2` with the ring and the pool of the globals.
    pub steps-serve :
        (ts : List Side) (s : e.State)
        → (y : Startup e) × (steps e (ts ++ again thread1 4 (again thread2 4 [])) (at_start e s)
            ≡ ok y)
          × (y.first ≡ serves)
          × (y.second ≡ commands y.app_id_ring y.app_id_mempool)
    unfolding at_start
    steps-serve ts s =
        let (x, returned, h) =
          steps-Ordered e laws rings pools ts (at_start e s) (record { made = refl; found = tt }) in
        let (y, first, ordered, left) = first_steps 4 (again thread2 4 []) x h in
        let at = left1-zero y.first (omega (arith, left, left1-le x.first)) in
        let (z, second, now, rest, there) = second_steps 4 y ordered at in
        let (r, m, here) = left2-zero z.second (omega (arith, rest, left2-le y.second)) in
        let (_, same, equal) = subst (λ (p : Phase2). Found e p z) here now.found in
        (
          z,
          steps-append ts (again thread1 4 (again thread2 4 [])) (at_start e s) x returned
              ∙ first
              ∙ second,
          there,
          rw here (rw (same, equal) refl),
        )
