-- ===== src/Queues/Drained.antt =====
-- Rounds empty the queues.
use mathlib.Core.List.{append_assoc, append-nil}
use dpdk_udp_receiver.Common.{
  ok-injective, IsGiven, given-some, ℕ, zero, suc, ◌<◌, ◌≡◌, refl, sym, ap, subst, ◌∙◌, ==_iff,
  Bool-cases, inl, inr, Option, none, some, List, [], ◌∷◌, ◌++◌, map, length, lt→ltb, ◌==◌, update,
  update_self, Result, ok, fault, panic, ◌>>=◌, All,
}
use dpdk_udp_receiver.Channel.{pack_num, index_size}
use dpdk_udp_receiver.Queues.{
  QueueArg, clear_frame, align_slot, align_front, align_frame, Producer, Post, post_slot,
  post_front, post, Turn, aligns, posts, turn, run,
}
use dpdk_udp_receiver.Queues.Contents.{IsQueued, waiting, content}
use dpdk_udp_receiver.Queues.Order.{send_all, post-Advanced, run-Advanced}

-- `n` rounds of one thread.
abbrev pub rounds_of : Turn → ℕ → List Turn
rounds_of t zero = []
rounds_of t (suc n) = t ∷ rounds_of t n

-- The slot has a complete frame.
abbrev pub IsComplete : QueueArg → ℕ → Type 0
IsComplete x id =
    (id < index_size) × (f : ℕ) × (x.index id ≡ some f) × ((x.frames f).count ≡ pack_num)

module _ (p : Producer) where
  after-append :
      (ts us : List Turn) (r : Result (Post p))
      → ((s : Post p) → run p (ts ++ us) s ≡ (run p ts s >>= λ t. run p us t))
      → (r >>= λ next. run p (ts ++ us) next) ≡ ((r >>= λ next. run p ts next) >>= λ t. run p us t)
  after-append ts us (ok next) later = later next
  after-append ts us panic later = refl
  after-append ts us fault later = refl

  run-append :
      (ts us : List Turn) (s : Post p) → run p (ts ++ us) s ≡ (run p ts s >>= λ t. run p us t)
  unfolding run
  run-append [] us s = refl
  run-append (t ∷ ts) us s = after-append ts us (turn p t s) (run-append ts us)

  -- Other queues.
  abbrev pub with_queues : List ℕ → List ℕ → Post p → Post p
  with_queues to_send queue s = record s {
    arg = record (s.arg) { queue_to_send = to_send; frame_queue = queue };
  }

  align_complete :
      (id : ℕ) (q : List ℕ) (s : Post p)
      → s.arg.frame_queue ≡ id ∷ q
      → IsComplete s.arg id
      → turn p aligns s ≡ ok (with_queues (s.arg.queue_to_send ++ (id ∷ [])) q s)
  unfolding turn align_frame align_front align_slot
  align_complete id q s front (few, f, here, full) =
      ap (λ w. align_front w s.arg >>= λ arg. ok (record s { arg = arg })) front
      ∙ rw (lt→ltb id index_size few) (
          ap (λ o. ok (record s { arg = align_slot id q s.arg o })) here
          ∙ rw ((==_iff _ pack_num).1 full) refl)

  align_all :
      (q : List ℕ) (s : Post p)
      → s.arg.frame_queue ≡ q
      → All (IsComplete s.arg) q
      → run p (rounds_of aligns (length q)) s ≡ ok (with_queues (s.arg.queue_to_send ++ q) [] s)
  unfolding run
  align_all [] s eq h =
      ap (λ to_send. ok (with_queues to_send s.arg.frame_queue s)) (sym (append-nil _))
      ∙ ap (λ queue. ok (with_queues (s.arg.queue_to_send ++ []) queue s)) eq
  align_all (id ∷ q) s eq h = rw (align_complete id q s eq h.0) (
      align_all q (with_queues (s.arg.queue_to_send ++ (id ∷ [])) q s) refl h.1
      ∙ ap (λ to_send. ok (with_queues to_send [] s))
          (append_assoc s.arg.queue_to_send (id ∷ []) q))

  -- The queue to send is empty, the other as it was, and the slots of `q` are.
  record Emptied (q : List ℕ) (s : Post p) (r : Result (Post p)) : Type 0 where
    next : Post p
    returns : r ≡ ok next
    none_to_send : next.arg.queue_to_send ≡ []
    queue : next.arg.frame_queue ≡ s.arg.frame_queue
    cleared : All (λ id. next.arg.index id ≡ none) q
    stays : (id : ℕ) → s.arg.index id ≡ none → next.arg.index id ≡ none

  post-eq :
      (id f : ℕ) (rest : List ℕ) (s : Post p)
      → s.arg.queue_to_send ≡ id ∷ rest
      → id < index_size
      → s.arg.index id ≡ some f
      → post p s ≡ post_slot p id rest s (some f)
  unfolding post post_front
  post-eq id f rest s front few here =
      ap (λ q. post_front p q s) front
      ∙ rw (lt→ltb id index_size few) (ap (post_slot p id rest s) here)

  -- A round of the send thread with a frame to send.
  post-step :
      (id f : ℕ) (rest : List ℕ) (s : Post p)
      → s.arg.queue_to_send ≡ id ∷ rest
      → id < index_size
      → s.arg.index id ≡ some f
      → (t : Post p) × (post p s ≡ ok t)
        × (t.arg.queue_to_send ≡ rest)
        × (t.arg.frame_queue ≡ s.arg.frame_queue)
        × (t.arg.index ≡ update s.arg.index id none)
  unfolding post_slot clear_frame
  post-step id f rest s front few here = (_, post-eq id f rest s front few here, refl, refl, refl)

  post-IsQueued : (s t : Post p) → IsQueued s.arg → post p s ≡ ok t → IsQueued t.arg
  post-IsQueued s t h e =
      let a = post-Advanced p s h in
      subst (λ (u : Post p). IsQueued u.arg) (ok-injective (sym a.returns ∙ e)) a.queued

  -- A slot stays empty when another is cleared.
  update-none : (index : ℕ → Option ℕ) (id j : ℕ) → index j ≡ none → update index id none j ≡ none
  update-none index id j e = elim (Bool-cases (id == j)) [
    | inl same ↦ rw same
    | inr other ↦ rw other e
  ]

  post_all :
      (q : List ℕ) (s : Post p)
      → s.arg.queue_to_send ≡ q
      → IsQueued s.arg
      → Emptied q s (run p (rounds_of posts (length q)) s)
  unfolding run turn
  post_all [] s eq h = record {
    next = s;
    returns = refl;
    none_to_send = eq;
    queue = refl;
    cleared = tt;
    stays = λ id e. e;
  }
  post_all (id ∷ q) s eq h =
      let few =
        subst (λ (w : List ℕ). All (λ j. j < index_size) (w ++ s.arg.frame_queue)) eq h.small in
      let given = subst (All (λ j. IsGiven (s.arg.index j))) eq h.present in
      let (f, here) = given-some (s.arg.index id) given.0 in
      let (t, returned, to_send, queue, index) = post-step id f q s eq few.0 here in
      let later = post_all q t to_send (post-IsQueued s t h returned) in
      record {
        next = later.next;
        returns = rw returned later.returns;
        none_to_send = later.none_to_send;
        queue = later.queue ∙ queue;
        cleared = (later.stays id (rw index (update_self s.arg.index id none)), later.cleared);
        stays = λ j e. later.stays j (rw index (update-none s.arg.index id j e));
      }

  -- When each number that waits is in one place and has a complete frame, then as many rounds of
  -- `align_frame` as frames wait for it, and then as many of `send_to_pulsar` as wait in both
  -- queues, empty both queues, clear all these slots of the index, and send the frames in the order
  -- of the queues.
  pub run-Drained :
      (s : Post p)
      → IsQueued s.arg
      → All (IsComplete s.arg) s.arg.frame_queue
      → (t : Post p) × (run p
            (rounds_of aligns (length s.arg.frame_queue)
              ++ rounds_of posts (length (waiting s.arg)))
            s
          ≡ ok t)
        × (waiting t.arg ≡ [])
        × All (λ id. t.arg.index id ≡ none) (waiting s.arg)
        × (t.producer ≡ send_all p (map (content s.arg) (waiting s.arg)) s.producer)
  run-Drained s h complete =
      let u = with_queues (waiting s.arg) [] s in
      let moved = align_all s.arg.frame_queue s refl complete in
      let first = run-Advanced p (rounds_of aligns (length s.arg.frame_queue)) s h in
      let queued =
        subst (λ (v : Post p). IsQueued v.arg) (ok-injective (sym first.returns ∙ moved))
          first.queued in
      let emptied = post_all (waiting s.arg) u refl queued in
      let whole = run-Advanced p (rounds_of posts (length (waiting s.arg))) u queued in
      let same = ok-injective (sym whole.returns ∙ emptied.returns) in
      let none_left : waiting emptied.next.arg ≡ [] =
        rw (emptied.none_to_send, emptied.queue) refl in
      let all_sent : whole.sent ≡ waiting s.arg =
        sym (append-nil whole.sent)
        ∙ ap (λ w. whole.sent ++ w) (sym (ap (λ (v : Post p). waiting v.arg) same ∙ none_left))
        ∙ whole.order
        ∙ append-nil (waiting s.arg) in
      (
        emptied.next,
        run-append (rounds_of aligns (length s.arg.frame_queue))
              (rounds_of posts (length (waiting s.arg))) s
            ∙ ap (λ r. r >>= λ v. run p (rounds_of posts (length (waiting s.arg))) v) moved
            ∙ emptied.returns,
        none_left,
        emptied.cleared,
        sym (ap (λ (v : Post p). v.producer) same)
            ∙ whole.mailed
            ∙ ap (λ ids. send_all p (map (content s.arg) ids) s.producer) all_sent,
      )
