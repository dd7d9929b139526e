-- ===== src/Route/Printed.antt =====
-- The three `print_map` of repeater.cpp: the texts that they print for the maps of the route table,
-- and how they are read back.
use mathlib.Core.List.{append_assoc}
use dpdk_udp_receiver.Common.{
  ℕ, zero, suc, ◌-◌, ◌%◌, ◌^◌, ◌<◌, ◌≡◌, ◌∙◌, refl, ap, arith, true, false, Option, List, [], ◌∷◌,
  ◌++◌, map, ltb, lt→ltb, if◌then◌else◌, length, All,
}
use dpdk_udp_receiver.Text.{codes, to_string}
use dpdk_udp_receiver.Text.Numerals.{value, value-to_string}
use dpdk_udp_receiver.Text.Words.{
  words, quiet, words-quiet, words-to_string, words-run, AreDigits, is_digit,
}
use dpdk_udp_receiver.Route.{Bits}

-- `printf("%d", n)` for an `unsigned int`, which is read as an `int`.
unfoldable pub decimal : ℕ → List ℕ
decimal n = if ltb n (2 ^ 31) then to_string n else b'-' ∷ to_string (2 ^ 32 - n)

-- `for (auto &t : n.second) printf("key: %d\tValue:%d\n", n.first, t)`
unfoldable pub print_values : ℕ → List ℕ → List ℕ
print_values key [] = []
print_values key (t ∷ ts) =
    codes "key: "
    ++ (decimal key ++ (codes "\tValue:" ++ (decimal t ++ (codes "\n" ++ print_values key ts))))

unfoldable pub print_vectors : List (ℕ × List ℕ) → List ℕ
print_vectors [] = codes "xxxxxxxxx\n"
print_vectors ((key, ts) ∷ m) = print_values key ts ++ print_vectors m

-- `print_map(int_vector_map &map)`
unfoldable pub print_vector_map : List (ℕ × List ℕ) → List ℕ
print_vector_map m = codes "--------\nint_vector_map\n" ++ print_vectors m

-- `std::cout << n.second` for a `std::bitset<16>`: the bits from `n - 1` down to 0.
unfoldable pub print_bits : ℕ → Bits → List ℕ
print_bits zero bits = []
print_bits (suc n) bits = (if bits n then b'1' else b'0') ∷ print_bits n bits

unfoldable pub print_bitsets : List (ℕ × Bits) → List ℕ
print_bitsets [] = codes "xxxxxxxxx\n"
print_bitsets ((key, bits) ∷ m) =
    codes "key: "
    ++ (to_string key
        ++ (codes "\tValue:" ++ (print_bits 16 bits ++ (codes "\n" ++ print_bitsets m))))

-- `print_map(int_bitset_map &map)`
unfoldable pub print_bitset_map : List (ℕ × Bits) → List ℕ
print_bitset_map m = codes "--------\nint_bitset_map\n" ++ print_bitsets m

-- `%d` reads the low half of a `size_t`.
unfoldable pub print_sizes : List (ℕ × List (Option ℕ)) → List ℕ
print_sizes [] = codes "xxxxxxxxx\n"
print_sizes ((channel, rings) ∷ m) =
    codes "channel_id: "
    ++ (decimal channel
        ++ (codes ", size: " ++ (decimal (length rings % 2 ^ 32) ++ (codes "\n" ++ print_sizes m))))

-- `print_map(int_vector_ring_map &map)`
unfoldable pub print_ring_map : List (ℕ × List (Option ℕ)) → List ℕ
print_ring_map m = codes "--------\nint_vector_ring_map\n" ++ print_sizes m

-- The numbers in a text.
abbrev pub numbers : List ℕ → List ℕ
numbers cs = map (value 0) (words [] cs)

-- What the maps hold, row after row.
abbrev pub values : ℕ → List ℕ → List ℕ
values key [] = []
values key (t ∷ ts) = key ∷ t ∷ values key ts

abbrev pub all_values : List (ℕ × List ℕ) → List ℕ
all_values [] = []
all_values ((key, ts) ∷ m) = values key ts ++ all_values m

abbrev pub sizes : List (ℕ × List (Option ℕ)) → List ℕ
sizes [] = []
sizes ((channel, rings) ∷ m) = channel ∷ length rings ∷ sizes m

-- The places of a set of 16 bits from the highest down, and the digit at a place.
abbrev places : List ℕ
places = 15 ∷ 14 ∷ 13 ∷ 12 ∷ 11 ∷ 10 ∷ 9 ∷ 8 ∷ 7 ∷ 6 ∷ 5 ∷ 4 ∷ 3 ∷ 2 ∷ 1 ∷ 0 ∷ []

abbrev digit : Bits → ℕ → ℕ
digit bits i = if bits i then b'1' else b'0'

abbrev pub bit_rows : List (ℕ × Bits) → List (List ℕ)
bit_rows [] = []
bit_rows ((key, bits) ∷ m) = to_string key ∷ map (digit bits) places ∷ bit_rows m

-- A number that is printed without a sign.
abbrev pub IsShort : ℕ → Type 0
IsShort n = n < 2147483648

decimal-IsShort : (n : ℕ) → IsShort n → decimal n ≡ to_string n
unfolding decimal
decimal-IsShort n h = rw (lt→ltb n 2147483648 h) refl

-- A number and a further run of digits, each after a text without digits.
words_row :
    (xs ys ds cs : List ℕ) (y d c a : ℕ)
    → quiet xs ≡ true
    → quiet (y ∷ ys) ≡ true
    → AreDigits (d ∷ ds)
    → is_digit c ≡ false
    → words [] (xs ++ (to_string a ++ ((y ∷ ys) ++ ((d ∷ ds) ++ (c ∷ cs)))))
      ≡ to_string a ∷ (d ∷ ds) ∷ words [] cs
words_row xs ys ds cs y d c a before between digits after =
    words-quiet xs _ before
    ∙ words-to_string a y (ys ++ ((d ∷ ds) ++ (c ∷ cs))) (ground arith)
    ∙ ap (λ z. to_string a ∷ z)
        (words-quiet ys ((d ∷ ds) ++ (c ∷ cs)) (ground arith) ∙ words-run d ds c cs digits after)

-- Two numbers.
numbers_row :
    (xs ys cs : List ℕ) (y c a b : ℕ)
    → quiet xs ≡ true
    → quiet (y ∷ ys) ≡ true
    → is_digit c ≡ false
    → IsShort a
    → IsShort b
    → numbers (xs ++ (decimal a ++ ((y ∷ ys) ++ (decimal b ++ (c ∷ cs))))) ≡ a ∷ b ∷ numbers cs
numbers_row xs ys cs y c a b before between after short_a short_b =
    rw (decimal-IsShort a short_a, decimal-IsShort b short_b)
      (ap (map (value 0)) (
          words-quiet xs _ before
          ∙ words-to_string a y (ys ++ (to_string b ++ (c ∷ cs))) (ground arith)
          ∙ ap (λ z. to_string a ∷ z)
              (words-quiet ys (to_string b ++ (c ∷ cs)) (ground arith)
                ∙ words-to_string b c cs after))
        ∙ numbers_of a b (map (value 0) (words [] cs)))
  where
    numbers_of :
        (a b : ℕ) (rest : List ℕ)
        → value 0 (to_string a) ∷ value 0 (to_string b) ∷ rest ≡ a ∷ b ∷ rest
    numbers_of a b rest = rw (value-to_string a, value-to_string b) refl

regroup :
    (xs ks ys bs : List ℕ) (c : ℕ) (rest cs : List ℕ)
    → (xs ++ (ks ++ (ys ++ (bs ++ ((c ∷ []) ++ rest))))) ++ cs
      ≡ xs ++ (ks ++ (ys ++ (bs ++ (c ∷ (rest ++ cs)))))
regroup xs ks ys bs c rest cs = simp append_assoc

read_values :
    (key : ℕ) (ts cs : List ℕ)
    → IsShort key
    → All IsShort ts
    → numbers (print_values key ts ++ cs) ≡ values key ts ++ numbers cs
unfolding print_values
read_values key [] cs short all = refl
read_values key (t ∷ ts) cs short all =
    ap numbers (
      regroup (codes "key: ") (decimal key) (codes "\tValue:") (decimal t) b'\n'
        (print_values key ts) cs)
    ∙ numbers_row (codes "key: ") (codes "Value:") (print_values key ts ++ cs) _ b'\n' key t refl
        refl refl short all.0
    ∙ ap (λ z. key ∷ t ∷ z) (read_values key ts cs short all.1)

-- Every number of the map is printed without a sign.
abbrev pub AreShort : List (ℕ × List ℕ) → Type 0
AreShort = All (λ (e : ℕ × List ℕ). IsShort e.0 × All IsShort e.1)

read_vectors : (m : List (ℕ × List ℕ)) → AreShort m → numbers (print_vectors m) ≡ all_values m
unfolding print_vectors words
read_vectors [] h = refl
read_vectors ((key, ts) ∷ m) h =
    read_values key ts (print_vectors m) h.0.0 h.0.1
    ∙ ap (λ z. values key ts ++ z) (read_vectors m h.1)

print_bits-AreDigits : (n : ℕ) (bits : Bits) → AreDigits (print_bits n bits)
unfolding print_bits
print_bits-AreDigits zero bits = tt
print_bits-AreDigits (suc n) bits = (ground arith, print_bits-AreDigits n bits)

read_bitsets : (m : List (ℕ × Bits)) → words [] (print_bitsets m) ≡ bit_rows m
unfolding print_bitsets print_bits words
read_bitsets [] = refl
read_bitsets ((key, bits) ∷ m) =
    words_row (codes "key: ") (codes "Value:") _ (print_bitsets m) _ _ b'\n' key refl refl
      (print_bits-AreDigits 16 bits) refl
    ∙ ap (λ z. to_string key ∷ map (digit bits) places ∷ z) (read_bitsets m)

-- A ring map with few rings, and channels that are printed without a sign.
abbrev pub AreSmall : List (ℕ × List (Option ℕ)) → Type 0
AreSmall = All (λ (e : ℕ × List (Option ℕ)). IsShort e.0 × IsShort (length e.1))

read_sizes : (m : List (ℕ × List (Option ℕ))) → AreSmall m → numbers (print_sizes m) ≡ sizes m
unfolding print_sizes words
read_sizes [] h = refl
read_sizes ((channel, rings) ∷ m) h =
    let same : length rings % 2 ^ 32 ≡ length rings = omega (arith, h.0.1) in
    rw same (
      numbers_row (codes "channel_id: ") (codes " size: ") (print_sizes m) _ b'\n' channel
        (length rings) refl refl refl h.0.0 h.0.1
      ∙ ap (λ z. channel ∷ length rings ∷ z) (read_sizes m h.1))

-- What a reader of numbers gets from the printed maps, where the numbers are below 2 ^ 31: from a
-- vector map, each key with each of its values, in order; from a map of rings, each channel with
-- the number of its rings. From a bitset map, a reader of digits gets each key in decimal and the
-- 16 bits of its set, from bit 15 down to bit 0, as a 1 where it is set and a 0 where not.
pub print_map-read :
    (m : List (ℕ × List ℕ)) (b : List (ℕ × Bits)) (r : List (ℕ × List (Option ℕ)))
    → AreShort m
    → AreSmall r
    → (numbers (print_vector_map m) ≡ all_values m)
      × (words [] (print_bitset_map b) ≡ bit_rows b)
      × (numbers (print_ring_map r) ≡ sizes r)
unfolding print_vector_map print_bitset_map print_ring_map
print_map-read m b r short small = (
  ap (map (value 0)) (words-quiet (codes "--------\nint_vector_map\n") (print_vectors m) refl)
      ∙ read_vectors m short,
  words-quiet (codes "--------\nint_bitset_map\n") (print_bitsets b) refl ∙ read_bitsets b,
  ap (map (value 0)) (words-quiet (codes "--------\nint_vector_ring_map\n") (print_sizes r) refl)
      ∙ read_sizes r small,
)
