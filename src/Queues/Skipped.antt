-- ===== src/Queues/Skipped.antt =====
-- What `align_frame` drops before it begins.
use dpdk_udp_receiver.Common.{
  Bool-cases, inl, inr, ltb, if◌then◌else◌, IsGiven, given-some, ℕ, zero, suc, ◌<◌, ◌≤◌, ◌≡◌, ◌≢◌,
  refl, ap, ◌∙◌, arith, ==_iff, none, List, [], ◌∷◌, take, drop, length, lt→ltb, update,
  update_self, update_ne, Result, ok, times, times-absent, times-take, All, All-both,
}
use dpdk_udp_receiver.Channel.{index_size}
use dpdk_udp_receiver.Queues.{QueueArg, clear_frame, skip_slot, skip_front, skip, skip_first}

-- The numbers are slots of the index, with frames.
abbrev pub IsLinked : QueueArg → ℕ → Type 0
IsLinked x id = (id < index_size) × IsGiven (x.index id)

-- `n` frames are gone from the front of the queue and out of the index, and nothing else has
-- changed there.
pub record Skipped (n : ℕ) (q : List ℕ) (x : QueueArg) (r : Result QueueArg) : Type 0 where
  pub next : QueueArg
  pub returns : r ≡ ok next
  pub queue : next.frame_queue ≡ drop n q
  pub to_send : next.queue_to_send ≡ x.queue_to_send
  pub cleared : All (λ id. next.index id ≡ none) (take n q)
  pub kept : (id : ℕ) → times id (take n q) ≡ 0 → next.index id ≡ x.index id

-- A round with a frame at the front.
skip-step :
    (id : ℕ) (rest : List ℕ) (x : QueueArg)
    → x.frame_queue ≡ id ∷ rest
    → IsLinked x id
    → (y : QueueArg) × (skip_front x.frame_queue x ≡ ok y)
      × (y.frame_queue ≡ rest)
      × (y.queue_to_send ≡ x.queue_to_send)
      × (y.index ≡ update x.index id none)
unfolding skip_front skip_slot clear_frame
skip-step id rest x front (few, given) =
    let (f, here) = given-some (x.index id) given in
    (
      clear_frame id f (record x { frame_queue = rest }),
      ap (λ q. skip_front q x) front
          ∙ rw (lt→ltb id index_size few) (ap (λ o. ok (skip_slot id rest x o)) here),
      refl,
      refl,
      refl,
    )

skip-Skipped :
    (n : ℕ) (q : List ℕ) (x : QueueArg)
    → x.frame_queue ≡ q
    → n ≤ length q
    → ((id : ℕ) → times id q ≤ 1)
    → All (IsLinked x) (take n q)
    → Skipped n q x (skip n x)
unfolding skip
skip-Skipped zero q x eq long once linked = record {
  next = x;
  returns = refl;
  queue = eq;
  to_send = refl;
  cleared = tt;
  kept = λ id e. refl;
}
skip-Skipped (suc n) [] x eq long once linked = absurd (omega arith)
skip-Skipped (suc n) (id ∷ q) x eq long once linked =
    let (y, returned, queue, to_send, index) = skip-step id q x eq linked.0 in
    let absent : times id (take n q) ≡ 0 =
      ground (arith, once id, times-take id n q, ==_iff id id) in
    let later =
      skip-Skipped n q y queue (omega (arith, long)) (λ j. omega (arith, once j))
        (All-both (IsLinked x) (λ j. id ≢ j) (IsLinked y)
          (λ j l ne. (l.0, rw (index, update_ne x.index id j none ne) l.1)) (take n q) linked.1
          (times-absent id (take n q) absent)) in
    record {
      next = later.next;
      returns = rw returned later.returns;
      queue = later.queue;
      to_send = later.to_send ∙ to_send;
      cleared = (later.kept id absent ∙ rw index (update_self x.index id none), later.cleared);
      kept = λ j none_there.
          later.kept j (omega (arith, none_there))
          ∙ rw index (update_ne x.index id j none (λ e. ground (arith, none_there, ==_iff id j)));
    }

-- Where the frames in the queue are all different and the first five are in the index: with more
-- than six of them, `align_frame` drops exactly the first five before its endless loop, and
-- otherwise none. Those leave the queue and the index, where nothing else changes.
pub skip_first-Skipped :
    (x : QueueArg)
    → ((id : ℕ) → times id x.frame_queue ≤ 1)
    → All (IsLinked x) (take 5 x.frame_queue)
    → Skipped (if ltb 6 (length x.frame_queue) then 5 else 0) x.frame_queue x (skip_first x)
unfolding skip_first skip
skip_first-Skipped x once linked = elim (Bool-cases (ltb 6 (length x.frame_queue))) [
  | inl many ↦ rw many (skip-Skipped 5 x.frame_queue x refl (ground (arith, many)) once linked)
  | inr few ↦ rw few (skip-Skipped 0 x.frame_queue x refl (omega arith) once tt)
]
