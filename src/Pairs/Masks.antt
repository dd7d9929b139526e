-- ===== src/Pairs/Masks.antt =====
-- The result of `check_port_pair_config` against sets of ports.
use dpdk_udp_receiver.Common.{
  ℕ, ◌^◌, ◌<◌, ◌≡◌, ◌≢◌, ◌↔◌, refl, arith, Bool, true, false, ◌||◌, Option, none, some, List, [],
  ◌∷◌, ◌==◌, ==_iff, Bool-cases, inl, inr, lt→ltb, bit_and, bit_or, bit_at, bit_at-lt, bit_at-and,
  bit_at-zero, ℤ, pos, negsuc, Result, ok, ◌>>=◌, All,
}
use dpdk_udp_receiver.Pairs.{
  PortPair, ports, mark_ports, join_mask, check_pairs, finish, check_port_pair_config,
}
use dpdk_udp_receiver.Pairs.Sets.{
  has, among, in_pairs, Stands, has_iff, Stands-or, Stands-pow, Stands-and,
}

module _ (valid : ℕ → Bool) (enabled : ℕ) where
  -- The port is enabled in the mask and present.
  abbrev pub IsAllowed : ℕ → Type 0
  IsAllowed p = (has enabled p ≡ true) × (valid p ≡ true)

  -- No port is in two of the pairs.
  abbrev pub Apart : List PortPair → Type 0
  Apart [] = Unit
  Apart (p ∷ pairs) = ((q : ℕ) → among q (ports p) ≡ true → in_pairs q pairs ≡ false) × Apart pairs

  -- The pairs are as they should be, beside the ports `s` that are taken.
  pub record IsFine (s : ℕ → Bool) (pairs : List PortPair) : Type 0 where
    pub allowed : All (λ p. All IsAllowed (ports p)) pairs
    pub unused : (q : ℕ) → s q ≡ true → in_pairs q pairs ≡ false
    pub apart : Apart pairs

  IsFine-cons :
      (s : ℕ → Bool) (p : PortPair) (pairs : List PortPair)
      → IsFine s (p ∷ pairs) ↔ (
          All IsAllowed (ports p)
          × ((q : ℕ) → among q (ports p) ≡ true → s q ≡ false)
          × IsFine (λ q. s q || among q (ports p)) pairs)
  IsFine-cons s p pairs = (
    λ h. (
      h.allowed.0,
      (λ q e. ground (arith, e, h.unused q)),
      record {
        allowed = h.allowed.1;
        unused = λ q e. ground (arith, e, h.unused q, h.apart.0 q);
        apart = h.apart.1;
      },
    ),
    λ (a, u, h). record {
      allowed = (a, h.allowed);
      unused = λ q e. ground (arith, e, u q, h.unused q);
      apart = ((λ q e. ground (arith, e, h.unused q)), h.apart);
    },
  )

  -- How a loop over ports or pairs may end: with none, or with a mask.
  pub data Ends (Good : Type 0) (s : ℕ → Bool) : Result (Option ℕ) → Type 0 where
    refuses : ¬ Good → Ends Good s (ok none)
    accepts : Good → (mask : ℕ) → Stands mask s → Ends Good s (ok (some mask))

  Ends-map :
      {P Q : Type 0} {s t : ℕ → Bool} {r : Result (Option ℕ)}
      → (P ↔ Q)
      → ((p : ℕ) → s p ≡ t p)
      → Ends P s r
      → Ends Q t r
  Ends-map (f, g) e (refuses bad) = refuses (λ q. bad (g q))
  Ends-map (f, g) e (accepts good mask h) = accepts (f good) mask (λ p. rw (← e p) (h p))

  mark_ports-Ends :
      (ps : List ℕ) (mask : ℕ) (s : ℕ → Bool)
      → All (λ p. p < 32) ps
      → Stands mask s
      → Ends (All IsAllowed ps) (λ q. s q || among q ps) (mark_ports valid enabled ps mask)
  unfolding mark_ports
  mark_ports-Ends [] mask s small h = accepts tt mask λ q. ground (arith, h q)
  mark_ports-Ends (p ∷ ps) mask s small h = elim (Bool-cases (bit_and enabled (2 ^ p) == 0)) [
    | inl off ↦
        rw (lt→ltb p 32 small.0, off) (refuses λ a. ground (arith, off, a.0.0, has_iff enabled p))
    | inr on ↦ elim (Bool-cases (valid p)) [
      | inl here ↦
          rw (lt→ltb p 32 small.0, on, here)
            (Ends-map
              (
                λ a. ((ground (arith, on, bit_at-lt p enabled, has_iff enabled p), refl), a),
                λ a. a.1,
              )
              (λ q. ground arith)
              (mark_ports-Ends ps (bit_or mask (2 ^ p)) (λ q. s q || (q == p)) small.1
                (Stands-or mask (2 ^ p) s (λ q. q == p) h (Stands-pow p))))
      | inr gone ↦ rw (lt→ltb p 32 small.0, on, gone) (refuses λ a. ground (arith, gone, a.0.1))
    ]
  ]

  -- Pairs of ports below 32.
  abbrev pub AreSmall : List PortPair → Type 0
  AreSmall = All (λ p. All (λ q. q < 32) (ports p))

  check_pairs-none : (pairs : List PortPair) → check_pairs valid enabled pairs none ≡ ok none
  unfolding check_pairs
  check_pairs-none [] = refl
  check_pairs-none (p ∷ pairs) = refl

  check_pairs-Ends :
      (pairs : List PortPair) (config : ℕ) (s : ℕ → Bool)
      → AreSmall pairs
      → Stands config s
      → Ends
          (IsFine s pairs)
          (λ q. s q || in_pairs q pairs)
          (check_pairs valid enabled pairs (some config))
  unfolding check_pairs
  check_pairs-Ends [] config s small h =
      accepts (record { allowed = tt; unused = λ q e. refl; apart = tt }) config
        λ q. ground (arith, h q)
  check_pairs-Ends (p ∷ pairs) config s small h =
      elim (mark_ports-Ends (ports p) 0 (λ q. false) small.0 (λ q. bit_at-zero q))
        as (λ r _.
          Ends (IsFine s (p ∷ pairs)) (λ q. s q || in_pairs q (p ∷ pairs))
            (r >>= λ m. check_pairs valid enabled pairs (join_mask config m))) [
              | refuses bad ↦
                  rw (check_pairs-none pairs) (refuses λ f. bad ((IsFine-cons s p pairs).0 f).0)
              | accepts good mask stands ↦
                  let overlap = Stands-and config mask s (λ q. among q (ports p)) h stands in
                  elim (Bool-cases (bit_and config mask == 0)) [
                    | inl free ↦ rw free (
                        Ends-map
                          (
                            (λ f.
                                (IsFine-cons s p pairs).1
                                  (good, overlap.0 ((==_iff _ 0).0 free), f)),
                            λ f. ((IsFine-cons s p pairs).0 f).2,
                          )
                          (λ q. ground arith)
                          (check_pairs-Ends pairs (bit_or config mask)
                            (λ q. s q || among q (ports p)) small.1
                            (Stands-or config mask s (λ q. among q (ports p)) h stands)))
                    | inr taken ↦
                        rw (taken, check_pairs-none pairs)
                          (refuses
                            λ f. ground (arith, taken, overlap.1 ((IsFine-cons s p pairs).0 f).1))
                  ]
            ]

  -- What `check_port_pair_config` ends in.
  pub record Checked (pairs : List PortPair) (r : Result (ℤ × ℕ)) : Type 0 where
    pub code : ℤ
    pub mask : ℕ
    pub returns : r ≡ ok (code, mask)
    pub decides : (code ≡ pos 0) ↔ IsFine (λ q. false) pairs
    pub refused : code ≢ pos 0 → (code ≡ negsuc 0) × (mask ≡ enabled)
    pub accepted : code ≡ pos 0 → Stands mask (λ q. in_pairs q pairs)

  -- The ports of fine pairs are enabled.
  has-in_pairs :
      (q : ℕ) (pairs : List PortPair)
      → All (λ p. All IsAllowed (ports p)) pairs
      → in_pairs q pairs ≡ true
      → bit_at q enabled ≡ 1
  has-in_pairs q [] a e = ground (arith, e)
  has-in_pairs q (p ∷ pairs) a e = elim (Bool-cases (q == p.port0)) [
    | inl e0 ↦ rw ((==_iff q p.port0).0 e0) ((==_iff _ 1).0 a.0.0.0)
    | inr ne0 ↦ elim (Bool-cases (q == p.port1)) [
      | inl e1 ↦ rw ((==_iff q p.port1).0 e1) ((==_iff _ 1).0 a.0.1.0.0)
      | inr ne1 ↦ has-in_pairs q pairs a.1 (ground (arith, e, ne0, ne1))
    ]
  ]

  -- For pairs of ports below 32, the check always ends; it returns 0 exactly when every port of
  -- every pair is enabled and present and no port is in two pairs. Then the mask of enabled ports
  -- has become the set of the ports of the pairs; otherwise the result is -1 and the mask is as it
  -- was.
  pub check_port_pair_config-Checked :
      (pairs : List PortPair)
      → AreSmall pairs
      → Checked pairs (check_port_pair_config valid pairs enabled)
  unfolding check_port_pair_config
  check_port_pair_config-Checked pairs small =
      elim (check_pairs-Ends pairs 0 (λ q. false) small (λ q. bit_at-zero q))
        as (λ r _. Checked pairs (r >>= λ c. ok (finish enabled c))) [
          | refuses bad ↦ record {
            code = negsuc 0;
            mask = enabled;
            returns = refl;
            decides = ((λ e. ground (arith, e)), λ f. absurd (bad f));
            refused = λ _. (refl, refl);
            accepted = λ e. ground (arith, e);
          }
          | accepts good config h ↦ record {
            code = pos 0;
            mask = bit_and enabled config;
            returns = refl;
            decides = ((λ _. good), λ _. refl);
            refused = λ ne. absurd (ne refl);
            accepted = λ _ q. ground (
              arith,
              bit_at-and q enabled config,
              h q,
              has-in_pairs q pairs good.allowed,
              bit_at-lt q enabled,
            );
          }
        ]
