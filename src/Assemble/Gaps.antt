-- ===== src/Assemble/Gaps.antt =====
-- What the thread does as it is compiled by default, without GODOT: it empties the ring and counts.
use dpdk_udp_receiver.Common.{
  ℕ, ◌+◌, ◌%◌, ◌^◌, ◌<◌, ◌≡◌, ◌↔◌, refl, arith, false, some, List, [], ◌∷◌, map, length, times,
  Result, ok, if◌then◌else◌, ◌==◌,
}
use dpdk_udp_receiver.Dpdk.{Dpdk, Lawful}
use dpdk_udp_receiver.Dpdk.Laws.{dequeue-cons, times-put}
use dpdk_udp_receiver.Channel.{Config, Channel, packet_at, pack_num}
use dpdk_udp_receiver.Assemble.{
  Consumer, running, count_packet, run_packet, handle, poll, round, rounds,
}

-- How often a sequence of packet numbers is not the one expected, which starts at `e` and goes
-- round from the last packet of a frame to the first.
abbrev pub gaps : ℕ → List ℕ → ℕ
gaps e [] = 0
gaps e (x ∷ xs) = (if e == x then 0 else 1) + gaps ((x + 1) % pack_num) xs

-- The numbers are `e`, `e + 1` and so on, going round.
abbrev pub Consecutive : ℕ → List ℕ → Type 0
Consecutive e [] = Unit
Consecutive e (x ∷ xs) = (x ≡ e) × Consecutive ((e + 1) % pack_num) xs

pub gaps-Consecutive_iff : (e : ℕ) (xs : List ℕ) → (gaps e xs ≡ 0) ↔ Consecutive e xs
gaps-Consecutive_iff e [] = ground arith
gaps-Consecutive_iff e (x ∷ xs) = ground (arith, gaps-Consecutive_iff ((e + 1) % pack_num) xs)

module _ (cfg : Config) (d : Dpdk) (laws : Lawful d) (off : cfg.godot ≡ false) where
  -- The packet number in each of the message buffers.
  abbrev pub numbers : Channel d → List ℕ → List ℕ
  numbers c = map (λ o. (packet_at (c.messages o)).packet_seq)

  -- What it is to have emptied a ring that held `os`.
  pub record Drained (os : List ℕ) (c : Channel d) (k : Consumer)
      (r : Result (Channel d × Consumer)) : Type 0 where
    pub end : Channel d
    pub locals : Consumer
    pub returns : r ≡ ok (end, locals)
    pub emptied : d.objects end.ring1_2 ≡ []
    pub returned :
        (o : ℕ) → times o (d.free end.send_pool) ≡ times o os + times o (d.free c.send_pool)
    pub counted : end.global_count ≡ (c.global_count + length os) % 2 ^ 32
    pub missed : end.mis ≡ (c.mis + gaps k.packet_seq (numbers c os)) % 2 ^ 32

  round-running :
      (x : ℕ) (rest : d.Ring) (c : Channel d) (k : Consumer)
      → k.loop ≡ running
      → d.dequeue c.ring1_2 ≡ some (x, rest)
      → round cfg d (c, k) ≡ ok (count_packet cfg d (packet_at (c.messages x)) x rest (c, k))
  unfolding round poll handle run_packet
  round-running x rest c k e got = ground arith

  Drained-cons :
      (x : ℕ) (os : List ℕ) (rest : d.Ring) (c : Channel d) (k : Consumer)
      {r : Result (Channel d × Consumer)}
      → (let s = count_packet cfg d (packet_at (c.messages x)) x rest (c, k) in
          Drained os s.0 s.1 r)
      → Drained (x ∷ os) c k r
  unfolding count_packet
  Drained-cons x os rest c k a = record {
    end = a.end;
    locals = a.locals;
    returns = a.returns;
    emptied = a.emptied;
    returned = λ o. omega (arith, a.returned o, times-put d laws o x c.send_pool);
    counted = omega (arith, a.counted);
    missed = ground (arith, a.missed);
  }

  -- Without GODOT, a running thread that finds `os` in the ring has emptied it after as many
  -- rounds: each buffer is back in the pool, `global_count` has gone up by their number, and `mis`
  -- by the number of packets that did not carry the number after the last one's.
  pub rounds-Drained :
      (os : List ℕ) (c : Channel d) (k : Consumer)
      → k.loop ≡ running
      → d.objects c.ring1_2 ≡ os
      → c.global_count < 2 ^ 32
      → c.mis < 2 ^ 32
      → Drained os c k (rounds cfg d (length os) (c, k))
  unfolding rounds count_packet
  rounds-Drained [] c k on held g m = record {
    end = c;
    locals = k;
    returns = refl;
    emptied = held;
    returned = λ o. omega arith;
    counted = omega arith;
    missed = omega arith;
  }
  rounds-Drained (x ∷ os) c k on held g m =
      let (rest, got, shown) = dequeue-cons d laws x os c.ring1_2 held in
      let s = count_packet cfg d (packet_at (c.messages x)) x rest (c, k) in
      rw (round-running x rest c k on got) (
        Drained-cons x os rest c k
          (rounds-Drained os s.0 s.1 on shown (omega arith) (ground arith)))
