-- ===== src/Text.antt =====
-- std::string and std::to_string, which the names of rings and pools are made with: a string is the
-- list of its character codes.
pub mod Numerals
pub mod Words
use Prim.Native.String.{String}
use Prim.Native.String
use Prim.Native.Char.{code}
use dpdk_udp_receiver.Common.{
  ℕ, zero, suc, ◌+◌, ◌-◌, ◌*◌, ◌/◌, ◌%◌, ◌^◌, ◌<◌, ◌≤◌, ◌≡◌, ◌≢◌, ◌∙◌, refl, sym, ap, arith, List,
  [], ◌∷◌, ◌++◌, ltb, if◌then◌else◌, Bool-cases, inl, inr, All,
}

-- The characters of a literal.
abbrev pub codes : String → List ℕ
codes String.[] = []
codes (String.◌∷◌ c s) = code c ∷ codes s

-- The decimal digits of a number, with fuel for their number.
digits : ℕ → ℕ → List ℕ
digits zero n = []
digits (suc fuel) n =
    let rest = digits fuel (n / 10) ++ ((b'0' + n % 10) ∷ []) in
    if ltb n 10 then (b'0' + n) ∷ [] else rest

-- `std::to_string(n)`: a number below 10 ^ k has at most k digits, so n + 1 is fuel enough.
unfoldable pub to_string : ℕ → List ℕ
unfolding digits
to_string n = digits (n + 1) n
