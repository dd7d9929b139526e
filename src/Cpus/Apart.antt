-- ===== src/Cpus/Apart.antt =====
-- Which threads of the program get the same CPU.
use dpdk_udp_receiver.Common.{
  ℕ, ◌<◌, ◌≡◌, sym, ◌∙◌, arith, ==_iff, Bool, true, false, List, [], ◌∷◌, ◌==◌, if◌then◌else◌, All,
  All-append, All-map,
}
use dpdk_udp_receiver.Dpdk.{Dpdk}
use dpdk_udp_receiver.Channel.{Config, Channel}
use dpdk_udp_receiver.Cpus.{
  CpuSets, Role, assemble_threads, align_threads, send_threads, t1, cpu_of, Pin, single,
  pin_threads, pin_if, start_threads,
}

-- What sched.h promises of the sets: there are 1024 CPUs; nothing is in a set that was cleared, and
-- CPU_SET adds one CPU.
pub record IsCpuSets (sets : CpuSets) : Type 0 where
  pub isset_zero : (cpu : ℕ) (m : sets.Mask) → sets.cpu_isset cpu (sets.cpu_zero m) ≡ false
  pub isset_set :
      (a b : ℕ) (m : sets.Mask)
      → a < 1024
      → sets.cpu_isset b (sets.cpu_set a m) ≡ (if a == b then true else sets.cpu_isset b m)

-- Two threads that may share a CPU: a thread and itself, and the timer thread and the align thread
-- of channel 3.
abbrev pub Meet : Role → ℕ → Role → ℕ → Type 0
Meet t1 a t1 b = Unit
Meet t1 a align_threads b = b ≡ 3
Meet align_threads a t1 b = a ≡ 3
Meet assemble_threads a assemble_threads b = a ≡ b
Meet align_threads a align_threads b = a ≡ b
Meet send_threads a send_threads b = a ≡ b
Meet _ a _ b = ⊥

-- With 18 channels at most.
cpu_of-Meet : (r q : Role) (a b : ℕ) → a < 18 → b < 18 → cpu_of r a ≡ cpu_of q b → Meet r a q b
unfolding cpu_of
cpu_of-Meet t1 t1 a b ha hb e = tt
cpu_of-Meet t1 align_threads a b ha hb e = omega arith
cpu_of-Meet t1 assemble_threads a b ha hb e = omega arith
cpu_of-Meet t1 send_threads a b ha hb e = omega arith
cpu_of-Meet align_threads t1 a b ha hb e = omega arith
cpu_of-Meet align_threads align_threads a b ha hb e = omega arith
cpu_of-Meet align_threads assemble_threads a b ha hb e = omega arith
cpu_of-Meet align_threads send_threads a b ha hb e = omega arith
cpu_of-Meet assemble_threads t1 a b ha hb e = omega arith
cpu_of-Meet assemble_threads align_threads a b ha hb e = omega arith
cpu_of-Meet assemble_threads assemble_threads a b ha hb e = omega arith
cpu_of-Meet assemble_threads send_threads a b ha hb e = omega arith
cpu_of-Meet send_threads t1 a b ha hb e = omega arith
cpu_of-Meet send_threads align_threads a b ha hb e = omega arith
cpu_of-Meet send_threads assemble_threads a b ha hb e = omega arith
cpu_of-Meet send_threads send_threads a b ha hb e = omega arith

cpu_of-lt : (r : Role) (a : ℕ) → a < 18 → cpu_of r a < 1024
unfolding cpu_of
cpu_of-lt assemble_threads a h = omega arith
cpu_of-lt align_threads a h = omega arith
cpu_of-lt send_threads a h = omega arith
cpu_of-lt t1 a h = omega arith

module _ (sets : CpuSets) (laws : IsCpuSets sets) where
  -- The mask of the thread has its CPU and no other.
  pub record IsPlaced (p : Pin sets) : Type 0 where
    pub few : p.channel < 18
    pub own : sets.cpu_isset (cpu_of p.role p.channel) p.mask ≡ true
    pub only : (cpu : ℕ) → sets.cpu_isset cpu p.mask ≡ true → cpu_of p.role p.channel ≡ cpu

  pub single-isset :
      (a b : ℕ) (m : sets.Mask) → a < 1024 → sets.cpu_isset b (single sets a m) ≡ (a == b)
  single-isset a b m h = ground (arith, laws.isset_set a b (sets.cpu_zero m) h, laws.isset_zero b m)

  single-IsPlaced :
      (r : Role) (a : ℕ) (m : sets.Mask)
      → a < 18
      → IsPlaced (record { role = r; channel = a; mask = single sets (cpu_of r a) m })
  single-IsPlaced r a m h = record {
    few = h;
    own = ground (arith, single-isset (cpu_of r a) (cpu_of r a) m (cpu_of-lt r a h));
    only = λ cpu i.
        (==_iff (cpu_of r a) cpu).0 (sym (single-isset (cpu_of r a) cpu m (cpu_of-lt r a h)) ∙ i);
  }

  module _ (d : Dpdk) where
    abbrev AreFew : List (Channel d) → Type 0
    AreFew = All (λ c. c.channel_id < 18)

    pin_threads-ArePlaced :
        (r : Role) (cs : List (Channel d)) (m : sets.Mask)
        → AreFew cs
        → All IsPlaced (pin_threads sets d r cs m).0
    unfolding pin_threads
    pin_threads-ArePlaced r [] m h = tt
    pin_threads-ArePlaced r (c ∷ cs) m h =
        (single-IsPlaced r c.channel_id m h.0, pin_threads-ArePlaced r cs _ h.1)

    pin_if-ArePlaced :
        (defined : Bool) (r : Role) (cs : List (Channel d)) (m : sets.Mask)
        → AreFew cs
        → All IsPlaced (pin_if sets d defined r cs m).0
    unfolding pin_if
    pin_if-ArePlaced true r cs m h = pin_threads-ArePlaced r cs m h
    pin_if-ArePlaced false r cs m h = tt

    pub start_threads-ArePlaced :
        (cfg : Config) (cs : List (Channel d)) (m : sets.Mask)
        → AreFew cs
        → All IsPlaced (start_threads sets d cfg cs m)
    unfolding start_threads
    start_threads-ArePlaced cfg cs m h =
        All-append IsPlaced _ _ (pin_threads-ArePlaced assemble_threads cs m h) (
          All-append IsPlaced _ _ (pin_if-ArePlaced cfg.godot align_threads cs _ h) (
            All-append IsPlaced _ _ (pin_if-ArePlaced cfg.kaze send_threads cs _ h)
              (single-IsPlaced t1 0 _ (omega arith), tt)))

  -- The threads share a CPU only where that is said.
  abbrev pub Apart : Pin sets → Pin sets → Type 0
  Apart p q =
      (cpu : ℕ)
      → sets.cpu_isset cpu p.mask ≡ true
      → sets.cpu_isset cpu q.mask ≡ true
      → Meet p.role p.channel q.role q.channel

  IsPlaced-Apart : (p q : Pin sets) → IsPlaced p → IsPlaced q → Apart p q
  IsPlaced-Apart p q hp hq cpu ip iq =
      cpu_of-Meet p.role q.role p.channel q.channel hp.few hq.few
        (hp.only cpu ip ∙ sym (hq.only cpu iq))

  pub ArePlaced-Apart : (ps : List (Pin sets)) → All IsPlaced ps → All (λ p. All (Apart p) ps) ps
  ArePlaced-Apart ps h =
      All-map IsPlaced (λ p. All (Apart p) ps)
        (λ p hp. All-map IsPlaced (Apart p) (λ q hq. IsPlaced-Apart p q hp hq) ps h) ps h
