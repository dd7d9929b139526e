-- ===== src/Queues/Order.antt =====
-- The frames leave the queues in the order in which they came.
use mathlib.Core.List.{append_assoc}
use dpdk_udp_receiver.Common.{
  IsGiven, ℕ, ◌<◌, ◌≤◌, ◌≡◌, refl, sym, ap, subst, ◌∙◌, arith, ==_iff, Bool-cases, inl, inr, Option,
  none, some, List, [], ◌∷◌, ◌++◌, map, lt→ltb, ◌==◌, update_ne, Result, ok, ◌>>=◌, times, All,
  All-append, All-map, All-left, All-right, All-both, times-absent, ◌≢◌,
}
use dpdk_udp_receiver.Channel.{pack_num, index_size}
use dpdk_udp_receiver.Queues.{
  QueueArg, clear_frame, align_slot, align_front, align_frame, content_size, Producer, Post,
  post_slot, post_front, post, Turn, aligns, posts, turn, run,
}
use dpdk_udp_receiver.Queues.Contents.{
  waiting, IsQueued, content_of, content, read-memcpy, clear_frame-content,
}

module _ (p : Producer) where
  -- The messages, one after the other.
  abbrev pub send_all : List (List ℕ) → p.State → p.State
  send_all [] s = s
  send_all (m ∷ ms) s = send_all ms (p.send_async m s)

  -- What rounds come to: they end, the frames that were sent stood first, in this order, those that
  -- still wait have the messages that they had, and the messages that were sent are those of the
  -- frames.
  pub record Advanced (s : Post p) (r : Result (Post p)) : Type 0 where
    pub next : Post p
    pub sent : List ℕ
    pub returns : r ≡ ok next
    pub queued : IsQueued next.arg
    pub order : sent ++ waiting next.arg ≡ waiting s.arg
    pub mailed : next.producer ≡ send_all (map (content s.arg) sent) s.producer
    pub kept : All (λ id. content next.arg id ≡ content s.arg id) (waiting next.arg)

  All-refl : (s : Post p) (xs : List ℕ) → All (λ id. content s.arg id ≡ content s.arg id) xs
  All-refl s [] = tt
  All-refl s (x ∷ xs) = (refl, All-refl s xs)

  idle_turn : (s : Post p) → IsQueued s.arg → Advanced s (ok s)
  idle_turn s h = record {
    next = s;
    sent = [];
    returns = refl;
    queued = h;
    order = refl;
    mailed = refl;
    kept = All-refl s _;
  }

  -- The front, with its frame.
  module _ (id f : ℕ) (rest : List ℕ) (s : Post p) (h : IsQueued s.arg)
      (front : s.arg.queue_to_send ≡ id ∷ rest) (here : s.arg.index id ≡ some f) where
    abbrev others : List ℕ
    others = rest ++ s.arg.frame_queue

    front_once : times id others ≡ 0
    front_once =
        let all = subst (λ (q : List ℕ). times id (q ++ s.arg.frame_queue) ≤ 1) front (h.once id) in
        ground (arith, all, ==_iff id id)

    abbrev left : QueueArg
    left = clear_frame id f (record (s.arg) { queue_to_send = rest })

    left-IsQueued : IsQueued left
    unfolding clear_frame
    left-IsQueued =
        let all =
          subst (λ (q : List ℕ). All (λ j. j < index_size) (q ++ s.arg.frame_queue)) front
            h.small in
        let given = subst (All (λ j. IsGiven (s.arg.index j))) front h.present in
        record {
          once = λ j.
              let most =
                subst (λ (q : List ℕ). times j (q ++ s.arg.frame_queue) ≤ 1) front (h.once j) in
              omega (arith, most);
          small = all.1;
          present =
              All-both (λ j. IsGiven (s.arg.index j)) (λ j. id ≢ j) (λ j. IsGiven (left.index j))
                (λ j there ne. rw (update_ne s.arg.index id j none ne) there) rest given.1
                (All-left _ rest s.arg.frame_queue (times-absent id others front_once));
        }

    post_slot-Advanced : Advanced s (post_slot p id rest s (some f))
    unfolding post_slot clear_frame
    post_slot-Advanced = record {
      next = _;
      sent = id ∷ [];
      returns = refl;
      queued = left-IsQueued;
      order = ap (λ q. q ++ s.arg.frame_queue) (sym front);
      mailed =
          ap (λ m. p.send_async m s.producer)
            (read-memcpy content_size content_size s.tmp (s.arg.frames f).bytes (omega arith)
              ∙ sym (ap (content_of s.arg.frames) here));
      kept =
          All-map (λ j. id ≢ j) _
            (λ j ne. clear_frame-content id f j (record (s.arg) { queue_to_send = rest }) ne) others
            (times-absent id others front_once);
    }

  pub post-Advanced : (s : Post p) → IsQueued s.arg → Advanced s (post p s)
  unfolding post post_front
  post-Advanced s h = split s.arg.queue_to_send refl
    where
      with_slot :
          (id : ℕ) (rest : List ℕ) (found : Option ℕ)
          → s.arg.queue_to_send ≡ id ∷ rest
          → s.arg.index id ≡ found
          → IsGiven found
          → Advanced s (post_slot p id rest s found)
      with_slot id rest none front here given = absurd given
      with_slot id rest (some f) front here given = post_slot-Advanced id f rest s h front here

      split : (q : List ℕ) → s.arg.queue_to_send ≡ q → Advanced s (post_front p q s)
      split [] eq = idle_turn s h
      split (id ∷ rest) eq =
          let few =
            subst (λ (q : List ℕ). All (λ j. j < index_size) (q ++ s.arg.frame_queue)) eq h.small in
          let given = subst (All (λ j. IsGiven (s.arg.index j))) eq h.present in
          rw (lt→ltb id index_size few.0) (with_slot id rest (s.arg.index id) eq refl given.0)

  -- The front, complete, moves on.
  module _ (id f : ℕ) (rest : List ℕ) (s : Post p) (h : IsQueued s.arg)
      (front : s.arg.frame_queue ≡ id ∷ rest) (here : s.arg.index id ≡ some f) where
    abbrev moved : QueueArg
    moved = record (s.arg) { queue_to_send = s.arg.queue_to_send ++ (id ∷ []); frame_queue = rest }

    waiting-moved : waiting s.arg ≡ waiting moved
    waiting-moved =
        ap (λ q. s.arg.queue_to_send ++ q) front
        ∙ sym (append_assoc s.arg.queue_to_send (id ∷ []) rest)

    moved-Advanced : Advanced s (ok (record s { arg = moved }))
    moved-Advanced = record {
      next = _;
      sent = [];
      returns = refl;
      queued = record {
        once = λ j. subst (λ (w : List ℕ). times j w ≤ 1) waiting-moved (h.once j);
        small = subst (All (λ j. j < index_size)) waiting-moved h.small;
        present = All-append _ s.arg.queue_to_send (id ∷ []) h.present (rw here tt, tt);
      };
      order = sym waiting-moved;
      mailed = refl;
      kept = All-refl s (waiting moved);
    }

  align-Advanced : (s : Post p) → IsQueued s.arg → Advanced s (turn p aligns s)
  unfolding turn align_frame align_front align_slot
  align-Advanced s h = split s.arg.frame_queue refl
    where
      with_slot :
          (id : ℕ) (rest : List ℕ) (found : Option ℕ)
          → s.arg.frame_queue ≡ id ∷ rest
          → s.arg.index id ≡ found
          → Advanced s (ok (record s { arg = align_slot id rest s.arg found }))
      with_slot id rest none front here = idle_turn s h
      with_slot id rest (some f) front here =
          elim (Bool-cases ((s.arg.frames f).count == pack_num)) [
            | inl full ↦ rw full (moved-Advanced id f rest s h front here)
            | inr partial ↦ rw partial (idle_turn s h)
          ]

      split :
          (q : List ℕ)
          → s.arg.frame_queue ≡ q
          → Advanced s (align_front q s.arg >>= λ arg. ok (record s { arg = arg }))
      split [] eq = idle_turn s h
      split (id ∷ rest) eq =
          let few =
            All-right (λ j. j < index_size) s.arg.queue_to_send (id ∷ rest)
              (subst (λ (q : List ℕ). All (λ j. j < index_size) (s.arg.queue_to_send ++ q)) eq
                h.small) in
          rw (lt→ltb id index_size few.0) (with_slot id rest (s.arg.index id) eq refl)

  turn-Advanced : (t : Turn) (s : Post p) → IsQueued s.arg → Advanced s (turn p t s)
  unfolding turn
  turn-Advanced aligns s h = align-Advanced s h
  turn-Advanced posts s h = post-Advanced s h

  send_all-append :
      (ms ns : List (List ℕ)) (q : p.State) → send_all (ms ++ ns) q ≡ send_all ns (send_all ms q)
  send_all-append [] ns q = refl
  send_all-append (m ∷ ms) ns q = send_all-append ms ns (p.send_async m q)

  map-same : (f g : ℕ → List ℕ) (xs : List ℕ) → All (λ a. f a ≡ g a) xs → map f xs ≡ map g xs
  map-same f g [] h = refl
  map-same f g (x ∷ xs) h = rw (h.0, map-same f g xs h.1) refl

  map-append : (f : ℕ → List ℕ) (xs ys : List ℕ) → map f (xs ++ ys) ≡ map f xs ++ map f ys
  map-append f [] ys = refl
  map-append f (x ∷ xs) ys = ap (λ ms. f x ∷ ms) (map-append f xs ys)

  -- When each number that waits is in one place and in the index, and those to be sent have their
  -- frames, then rounds of the two threads, in any order, read no null pointer and nothing out of
  -- bounds; they send the frames that stand first, in this order, each as the first 33580 bytes
  -- that it had at the start; and the numbers that still wait are again such.
  pub run-Advanced : (ts : List Turn) (s : Post p) → IsQueued s.arg → Advanced s (run p ts s)
  unfolding run
  run-Advanced [] s h = idle_turn s h
  run-Advanced (t ∷ ts) s h =
      let first = turn-Advanced t s h in
      let later = run-Advanced ts first.next first.queued in
      let old =
        subst (All (λ j. content first.next.arg j ≡ content s.arg j)) (sym later.order)
          first.kept in
      record {
        next = later.next;
        sent = first.sent ++ later.sent;
        returns = rw first.returns later.returns;
        queued = later.queued;
        order =
            append_assoc first.sent later.sent _
            ∙ ap (λ q. first.sent ++ q) later.order
            ∙ first.order;
        mailed =
            later.mailed
            ∙ rw
                (
                  first.mailed,
                  map-same _ _ later.sent (All-left _ later.sent (waiting later.next.arg) old),
                  map-append (content s.arg) first.sent later.sent,
                )
                (sym (send_all-append (map (content s.arg) first.sent) _ s.producer));
        kept =
            All-both _ _ _ (λ j k l. k ∙ l) (waiting later.next.arg) later.kept
              (All-right _ later.sent (waiting later.next.arg) old);
      }
