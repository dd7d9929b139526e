-- ===== src/Tests/Setups.antt =====
-- The theorems about the set-up, with rings and pools on lists.
use dpdk_udp_receiver.Common.{
  ℕ, zero, suc, ◌-◌, ◌≡◌, refl, arith, ==_iff, some, List, [], ◌∷◌, ltb, if◌then◌else◌, times,
  length,
}
use dpdk_udp_receiver.Dpdk.Listed.{listed}
use dpdk_udp_receiver.Setup.{Makers}
use dpdk_udp_receiver.Setup.Fresh.{IsMaker}

-- The numbers below `n`.
unfoldable pub upto : ℕ → List ℕ
upto zero = []
upto (suc n) = n ∷ upto n

pub length-upto : (n : ℕ) → length (upto n) ≡ n
unfolding upto
length-upto zero = refl
length-upto (suc n) = omega (arith, length-upto n)

times-upto : (o n : ℕ) → times o (upto n) ≡ (if ltb o n then 1 else 0)
unfolding upto
times-upto o zero = ground arith
times-upto o (suc n) = ground (arith, ==_iff n o, times-upto o n)

abbrev pub maker : Makers listed
maker = record {
  State = Unit {0};
  make_ring = λ name size s. (some (record { items = []; room = size - 1 }), s);
  make_pool = λ name n s. (some (upto n), s);
}

pub maker-IsMaker : IsMaker listed maker
maker-IsMaker = record {
  ring_made = λ name s. record { nothing = refl; room = omega arith };
  pool_made =
      λ name n s. record { many = length-upto n; distinct = λ o. ground (arith, times-upto o n) };
}
