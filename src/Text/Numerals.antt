-- ===== src/Text/Numerals.antt =====
-- Reading a numeral back, and texts that a separator parts: `std::to_string` gives each number a
-- text of its own.
use dpdk_udp_receiver.Common.{
  ℕ, zero, suc, ◌+◌, ◌-◌, ◌*◌, ◌/◌, ◌%◌, ◌<◌, ◌≡◌, ◌≢◌, ◌∙◌, refl, sym, ap, arith, List, [], ◌∷◌,
  ◌++◌, ltb, ltb→lt, Bool-cases, inl, inr,
}
use dpdk_udp_receiver.Text.{digits, to_string}

-- The number that a numeral reads as, after `n`.
unfoldable pub value : ℕ → List ℕ → ℕ
value n [] = n
value n (c ∷ cs) = value (n * 10 + (c - 48)) cs

value-append : (n c : ℕ) (cs : List ℕ) → value n (cs ++ (c ∷ [])) ≡ value n cs * 10 + (c - 48)
unfolding value
value-append n c [] = refl
value-append n c (d ∷ cs) = value-append (n * 10 + (d - 48)) c cs

value-digits : (fuel n : ℕ) → n < fuel → value 0 (digits fuel n) ≡ n
unfolding value digits
value-digits zero n h = omega (arith, h)
value-digits (suc fuel) n h =
    ground (arith, value-append 0 (48 + n % 10) (digits fuel (n / 10)), value-digits fuel (n / 10))

-- No character is an underscore.
unfoldable pub IsPlain : List ℕ → Type 0
IsPlain [] = Unit
IsPlain (c ∷ cs) = (c ≢ 95) × IsPlain cs

IsPlain-append : (cs : List ℕ) (c : ℕ) → IsPlain cs → c ≢ 95 → IsPlain (cs ++ (c ∷ []))
unfolding IsPlain
IsPlain-append [] c p ne = (ne, tt)
IsPlain-append (d ∷ cs) c (q, p) ne = (q, IsPlain-append cs c p ne)

digits-IsPlain : (fuel n : ℕ) → IsPlain (digits fuel n)
unfolding IsPlain digits
digits-IsPlain zero n = tt
digits-IsPlain (suc fuel) n = elim (Bool-cases (ltb n 10)) [
  | inl e ↦ rw e (ground (arith, ltb→lt n 10 e))
  | inr e ↦ rw e (
      IsPlain-append (digits fuel (n / 10)) (48 + n % 10) (digits-IsPlain fuel (n / 10))
        (omega arith))
]

pub to_string-IsPlain : (n : ℕ) → IsPlain (to_string n)
unfolding to_string
to_string-IsPlain n = digits-IsPlain (n + 1) n

pub value-to_string : (n : ℕ) → value 0 (to_string n) ≡ n
unfolding to_string
value-to_string n = value-digits (n + 1) n (omega arith)

pub to_string-injective : (m n : ℕ) → to_string m ≡ to_string n → m ≡ n
unfolding to_string
to_string-injective m n e =
    sym (value-digits (m + 1) m (omega arith))
    ∙ (ap (value 0) e ∙ value-digits (n + 1) n (omega arith))

-- Two texts with an underscore after a plain part agree in both parts.
pub parted-injective :
    (xs ys cs ds : List ℕ)
    → IsPlain xs
    → IsPlain ys
    → xs ++ (95 ∷ cs) ≡ ys ++ (95 ∷ ds)
    → (xs ≡ ys) × (cs ≡ ds)
unfolding IsPlain
parted-injective [] [] cs ds p q e = ground (arith, e)
parted-injective [] (b ∷ ys) cs ds p q e = ground (arith, e, q)
parted-injective (a ∷ xs) [] cs ds p q e = ground (arith, e, p)
parted-injective (a ∷ xs) (b ∷ ys) cs ds (_, p) (_, q) e =
    ground (arith, e, parted-injective xs ys cs ds p q)
