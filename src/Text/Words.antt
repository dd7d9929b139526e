-- ===== src/Text/Words.antt =====
-- A reader of the runs of decimal digits in a text.
use mathlib.Core.List.{append_assoc, append-nil}
use dpdk_udp_receiver.Common.{
  ℕ, zero, suc, ◌+◌, ◌%◌, ◌/◌, ◌≡◌, ◌∙◌, refl, sym, ap, arith, Bool, true, false, ◌&&◌, Bool-cases,
  inl, inr, List, [], ◌∷◌, ◌++◌, ltb, leb, if◌then◌else◌, All, All-append,
}
use dpdk_udp_receiver.Text.{digits, to_string}

abbrev pub is_digit : ℕ → Bool
is_digit c = leb b'0' c && leb c b'9'

-- The run so far, if there is one.
abbrev pub flush : List ℕ → List (List ℕ)
flush [] = []
flush (c ∷ cs) = (c ∷ cs) ∷ []

-- The runs of a text, with the run that has begun.
unfoldable pub words : List ℕ → List ℕ → List (List ℕ)
words run [] = flush run
words run (c ∷ cs) =
    (if is_digit c then [] else flush run) ++ words (if is_digit c then run ++ (c ∷ []) else []) cs

-- No character is a digit; every one is.
abbrev pub quiet : List ℕ → Bool
quiet [] = true
quiet (c ∷ cs) = if is_digit c then false else quiet cs

abbrev pub AreDigits : List ℕ → Type 0
AreDigits = All (λ c. is_digit c ≡ true)

pub words-quiet : (xs cs : List ℕ) → quiet xs ≡ true → words [] (xs ++ cs) ≡ words [] cs
unfolding words
words-quiet [] cs q = refl
words-quiet (x ∷ xs) cs q = ground (arith, words-quiet xs cs)

words-digits : (run ds cs : List ℕ) → AreDigits ds → words run (ds ++ cs) ≡ words (run ++ ds) cs
unfolding words
words-digits run [] cs h = ap (λ z. words z cs) (sym (append-nil run))
words-digits run (x ∷ ds) cs h =
    rw h.0 (
      words-digits (run ++ (x ∷ [])) ds cs h.1
      ∙ ap (λ z. words z cs) (append_assoc run (x ∷ []) ds))

digits-AreDigits : (fuel n : ℕ) → AreDigits (digits fuel n)
unfolding digits
digits-AreDigits zero n = tt
digits-AreDigits (suc fuel) n = elim (Bool-cases (ltb n 10)) [
  | inl one ↦ rw one (ground arith, tt)
  | inr more ↦ rw more (
      All-append (λ c. is_digit c ≡ true) (digits fuel (n / 10)) _ (digits-AreDigits fuel (n / 10))
        (ground arith, tt))
]

flush-append : (xs : List ℕ) (x : ℕ) → flush (xs ++ (x ∷ [])) ≡ (xs ++ (x ∷ [])) ∷ []
flush-append [] x = refl
flush-append (y ∷ xs) x = refl

flush-digits : (fuel n : ℕ) → flush (digits (suc fuel) n) ≡ digits (suc fuel) n ∷ []
unfolding digits
flush-digits fuel n = elim (Bool-cases (ltb n 10)) [
  | inl one ↦ rw one refl
  | inr more ↦ rw more (flush-append (digits fuel (n / 10)) (48 + n % 10))
]

flush-to_string : (n : ℕ) → flush (to_string n) ≡ to_string n ∷ []
unfolding to_string
flush-to_string n = let e : n + 1 ≡ suc n = omega arith in rw e (flush-digits n n)

words-break :
    (run cs : List ℕ) (c : ℕ) → is_digit c ≡ false → words run (c ∷ cs) ≡ flush run ++ words [] cs
unfolding words
words-break run cs c h = rw h refl

-- A number is read where something else follows it.
pub words-to_string :
    (n c : ℕ) (cs : List ℕ)
    → is_digit c ≡ false
    → words [] (to_string n ++ (c ∷ cs)) ≡ to_string n ∷ words [] cs
unfolding to_string
words-to_string n c cs h =
    words-digits [] (to_string n) (c ∷ cs) (digits-AreDigits (n + 1) n)
    ∙ words-break (to_string n) cs c h
    ∙ ap (λ z. z ++ words [] cs) (flush-to_string n)

-- So is a run of digits.
pub words-run :
    (x : ℕ) (xs : List ℕ) (c : ℕ) (cs : List ℕ)
    → AreDigits (x ∷ xs)
    → is_digit c ≡ false
    → words [] ((x ∷ xs) ++ (c ∷ cs)) ≡ (x ∷ xs) ∷ words [] cs
words-run x xs c cs d h = words-digits [] (x ∷ xs) (c ∷ cs) d ∙ words-break (x ∷ xs) cs c h
