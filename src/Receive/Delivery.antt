-- ===== src/Receive/Delivery.antt =====
-- What a burst leads to, with room in the ring and without.
use dpdk_udp_receiver.Common.{
  ℕ, ◌+◌, ◌-◌, ◌<◌, ◌≤◌, ◌≡◌, ◌∙◌, refl, ap, arith, some, List, [], ◌∷◌, ◌++◌, Bytes, update_self,
  update_ne, Result, ok, length, times, times-append, times-perm,
}
use dpdk_udp_receiver.Dpdk.{Dpdk, Lawful}
use dpdk_udp_receiver.Channel.{Channel}
use dpdk_udp_receiver.Assemble.Messages.{held}
use dpdk_udp_receiver.Receive.{Mbuf, payload_of, copy_burst, deliver, receive}

-- The buffers hold the packets, in order.
abbrev pub Delivered : (ℕ → Bytes) → List ℕ → List Mbuf → Type 0
Delivered mem [] [] = Unit
Delivered mem [] (b ∷ bs) = ⊥
Delivered mem (o ∷ os) [] = ⊥
Delivered mem (o ∷ os) (b ∷ bs) =
    ((i : ℕ) → i < 1472 → mem o i ≡ payload_of b i) × Delivered mem os bs

copy_burst-other :
    (os : List ℕ) (bs : List Mbuf) (mem : ℕ → Bytes) (o : ℕ)
    → times o os ≡ 0
    → copy_burst os bs mem o ≡ mem o
unfolding copy_burst
copy_burst-other [] bs mem o none_of = refl
copy_burst-other (x ∷ os) [] mem o none_of = refl
copy_burst-other (x ∷ os) (b ∷ bs) mem o none_of =
    copy_burst-other os bs _ o (ground arith) ∙ update_ne mem x o _ (ground arith)

copy_burst-Delivered :
    (os : List ℕ) (bs : List Mbuf) (mem : ℕ → Bytes)
    → length os ≡ length bs
    → ((o : ℕ) → times o os ≤ 1)
    → Delivered (copy_burst os bs mem) os bs
unfolding copy_burst
copy_burst-Delivered [] [] mem e once = tt
copy_burst-Delivered [] (b ∷ bs) mem e once = absurd (omega arith)
copy_burst-Delivered (o ∷ os) [] mem e once = absurd (omega arith)
copy_burst-Delivered (o ∷ os) (b ∷ bs) mem e once = (
  λ i h.
      ap (λ m. m i) (copy_burst-other os bs _ o (ground (arith, once o)) ∙ update_self mem o _)
      ∙ ground arith,
  copy_burst-Delivered os bs _ (omega arith) (λ x. omega (arith, once x)),
)

module _ (d : Dpdk) (laws : Lawful d) where
  -- What a burst leads to where the ring has room.
  pub record Received (bufs : List Mbuf) (c : Channel d) (r : Result (Channel d × List Mbuf))
      : Type 0 where
    pub end : Channel d
    pub msg : List ℕ
    pub returns : r ≡ ok (end, bufs)
    pub queued : d.objects end.ring1_2 ≡ d.objects c.ring1_2 ++ msg
    pub delivered : Delivered end.messages msg bufs
    pub kept : (o : ℕ) → held d o end ≡ held d o c

  -- What it leads to where the ring has no room.
  pub record Lost (bufs : List Mbuf) (c : Channel d) (r : Result (Channel d × List Mbuf))
      : Type 0 where
    pub end : Channel d
    pub msg : List ℕ
    pub returns : r ≡ ok (end, bufs)
    pub many : length msg ≡ length bufs
    pub unchanged : d.objects end.ring1_2 ≡ d.objects c.ring1_2
    pub leaked : (o : ℕ) → held d o end + times o msg ≡ held d o c

  receive-some :
      (bufs : List Mbuf) (c : Channel d) (msg : List ℕ) (rest : d.Pool)
      → 0 < length bufs
      → d.get_bulk (length bufs) c.send_pool ≡ some (msg, rest)
      → receive d bufs c
        ≡ ok (
          record c {
            send_pool = rest;
            messages = copy_burst msg bufs c.messages;
            ring1_2 = (d.enqueue_bulk msg c.ring1_2).1;
          },
          bufs,
        )
  unfolding receive deliver
  receive-some bufs c msg rest pos got = ground arith

  -- A burst for which the pool has buffers and the ring has room is queued behind what the ring
  -- held: each packet, from its 42nd byte on, stands in a buffer of its own, the buffers are in the
  -- order of the packets, none is lost or made up, and every mbuf is freed.
  pub receive-Received :
      (bufs : List Mbuf) (c : Channel d) (msg : List ℕ) (rest : d.Pool)
      → 0 < length bufs
      → d.get_bulk (length bufs) c.send_pool ≡ some (msg, rest)
      → length bufs ≤ d.capacity c.ring1_2 - length (d.objects c.ring1_2)
      → ((o : ℕ) → times o (d.free c.send_pool) ≤ 1)
      → Received bufs c (receive d bufs c)
  receive-Received bufs c msg rest pos got room once =
      let (many, split) = laws.get_bulk_some (length bufs) msg c.send_pool rest got in
      let put_in = (laws.enqueue_bulk_room msg c.ring1_2 (omega arith)).1 in
      record {
        end = record c {
          send_pool = rest;
          messages = copy_burst msg bufs c.messages;
          ring1_2 = (d.enqueue_bulk msg c.ring1_2).1;
        };
        msg = msg;
        returns = receive-some bufs c msg rest pos got;
        queued = put_in;
        delivered =
            copy_burst-Delivered msg bufs c.messages many
              λ o. omega (arith, once o, times-perm o split, times-append o msg (d.free rest));
        kept = λ o. omega (
          arith,
          times-perm o split,
          times-append o msg (d.free rest),
          ap (times o) put_in,
          times-append o (d.objects c.ring1_2) msg,
        );
      }

  -- A burst for which the ring has no room is lost without a word: rte_panic is not called, the
  -- mbufs are freed, the ring is as it was, and the message buffers are in no ring and in no pool.
  pub receive-Lost :
      (bufs : List Mbuf) (c : Channel d) (msg : List ℕ) (rest : d.Pool)
      → 0 < length bufs
      → d.get_bulk (length bufs) c.send_pool ≡ some (msg, rest)
      → d.capacity c.ring1_2 - length (d.objects c.ring1_2) < length bufs
      → Lost bufs c (receive d bufs c)
  receive-Lost bufs c msg rest pos got full =
      let (many, split) = laws.get_bulk_some (length bufs) msg c.send_pool rest got in
      let as_was = (laws.enqueue_bulk_full msg c.ring1_2 (omega arith)).1 in
      record {
        end = record c {
          send_pool = rest;
          messages = copy_burst msg bufs c.messages;
          ring1_2 = (d.enqueue_bulk msg c.ring1_2).1;
        };
        msg = msg;
        returns = receive-some bufs c msg rest pos got;
        many = many;
        unchanged = as_was;
        leaked = λ o.
            omega
              (arith, times-perm o split, times-append o msg (d.free rest), ap (times o) as_was);
      }
