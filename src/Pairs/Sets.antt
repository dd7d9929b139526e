-- ===== src/Pairs/Sets.antt =====
-- The masks of `check_port_pair_config` as sets of ports.
use dpdk_udp_receiver.Common.{
  ℕ, ◌^◌, ◌≡◌, ◌↔◌, arith, Bool, true, false, ◌||◌, List, [], ◌∷◌, ◌==◌, ==_iff, if◌then◌else◌,
  bit_and, bit_or, bit_at, bit_at-lt, bit_at-or, bit_at-pow, bit_and-zero_iff,
}
use dpdk_udp_receiver.Pairs.{PortPair, ports}

-- The port is in a mask.
abbrev pub has : ℕ → ℕ → Bool
has mask p = bit_at p mask == 1

-- The port is in a list, in a pair, in some of the pairs.
abbrev pub among : ℕ → List ℕ → Bool
among q [] = false
among q (p ∷ ps) = (q == p) || among q ps

abbrev pub in_pairs : ℕ → List PortPair → Bool
in_pairs q [] = false
in_pairs q (p ∷ pairs) = among q (ports p) || in_pairs q pairs

-- A mask stands for a set of ports.
abbrev pub Stands : ℕ → (ℕ → Bool) → Type 0
Stands mask s = (p : ℕ) → bit_at p mask ≡ (if s p then 1 else 0)

pub has_iff : (mask p : ℕ) → (bit_and mask (2 ^ p) ≡ 0) ↔ (has mask p ≡ false)
has_iff mask p = (
  λ e.
      ground (
        arith,
        (bit_and-zero_iff mask (2 ^ p)).0 e p,
        bit_at-pow p p,
        ==_iff p p,
        bit_at-lt p mask,
      ),
  λ e.
      (bit_and-zero_iff mask (2 ^ p)).1
        λ k. ground (arith, e, bit_at-pow k p, ==_iff k p, bit_at-lt p mask),
)

pub Stands-or :
    (a b : ℕ) (s t : ℕ → Bool) → Stands a s → Stands b t → Stands (bit_or a b) (λ p. s p || t p)
Stands-or a b s t ha hb p = ground (arith, bit_at-or p a b, ha p, hb p)

pub Stands-pow : (q : ℕ) → Stands (2 ^ q) (λ p. p == q)
Stands-pow q p = bit_at-pow p q

-- The masks overlap exactly when the sets do.
pub Stands-and :
    (a b : ℕ) (s t : ℕ → Bool)
    → Stands a s
    → Stands b t
    → (bit_and a b ≡ 0) ↔ ((p : ℕ) → t p ≡ true → s p ≡ false)
Stands-and a b s t ha hb = (
  λ e p h. ground (arith, (bit_and-zero_iff a b).0 e p, ha p, hb p),
  λ h. (bit_and-zero_iff a b).1 λ p. ground (arith, h p, ha p, hb p),
)
