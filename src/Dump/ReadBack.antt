-- ===== src/Dump/ReadBack.antt =====
-- Reading the printed text back.
use mathlib.Core.List.{append_assoc, append-nil}
use dpdk_udp_receiver.Common.{
  ℕ, zero, suc, ◌+◌, ◌-◌, ◌*◌, ◌/◌, ◌%◌, ◌<◌, ◌≡◌, refl, ap, ◌∙◌, arith, Bool-cases, inl, inr, List,
  [], ◌∷◌, ◌++◌, ltb, leb, ◌==◌, ◌&&◌, if◌then◌else◌, Bytes,
}
use dpdk_udp_receiver.Dump.{hex_digit, hex, separator, print_bytes, print_pkt}

-- What a character does to a reader with a number so far: the text of the bytes is over, the number
-- is complete, or there is a new number.
data Reading : Type 0 where
  ends gives : Reading
  goes_on : ℕ → Reading

-- A reader of hexadecimal numbers, each of which ends with a space. It passes over other
-- characters, up to the first `u`.
read_char : ℕ → ℕ → Reading
read_char so_far c =
    if c == b'u'
    then ends
    else if c == b' '
    then gives
    else if leb b'0' c && leb c b'9'
    then goes_on (so_far * 16 + (c - b'0'))
    else if leb b'a' c && leb c b'f'
    then goes_on (so_far * 16 + (c - b'a' + 10))
    else goes_on so_far

-- How the reader goes on, with `rest` for the text that follows.
abbrev act : Reading → ℕ → (ℕ → List ℕ) → List ℕ
act ends so_far rest = []
act gives so_far rest = so_far ∷ rest 0
act (goes_on next) so_far rest = rest next

pub scan : ℕ → List ℕ → List ℕ
unfolding read_char
scan so_far [] = []
scan so_far (c ∷ cs) = act (read_char so_far c) so_far (λ next. scan next cs)

-- The bytes that are printed.
abbrev pub bytes_from : Bytes → ℕ → ℕ → List ℕ
bytes_from pkt zero j = []
bytes_from pkt (suc n) j = pkt (42 + j) ∷ bytes_from pkt n (j + 1)

read_char-hex_digit :
    (so_far n : ℕ) → n < 16 → read_char so_far (hex_digit n) ≡ goes_on (so_far * 16 + n)
unfolding read_char hex_digit
read_char-hex_digit so_far n h = ground arith

scan-hex_digit :
    (so_far n : ℕ) (cs : List ℕ)
    → n < 16
    → scan so_far (hex_digit n ∷ cs) ≡ scan (so_far * 16 + n) cs
unfolding scan
scan-hex_digit so_far n cs h =
    ap (λ r. act r so_far (λ next. scan next cs)) (read_char-hex_digit so_far n h)

scan-hex : (n : ℕ) (cs : List ℕ) → n < 256 → scan 0 (hex n ++ cs) ≡ n ∷ scan 0 cs
unfolding scan hex
scan-hex n cs h = elim (Bool-cases (ltb n 16)) [
  | inl one ↦ rw one (
      scan-hex_digit 0 n (32 ∷ cs) (ground (arith, one)) ∙ ap (λ m. scan m (32 ∷ cs)) (omega arith))
  | inr two ↦ rw two (
      scan-hex_digit 0 (n / 16) (hex_digit (n % 16) ∷ 32 ∷ cs) (omega (arith, h))
      ∙ scan-hex_digit (0 * 16 + n / 16) (n % 16) (32 ∷ cs) (omega arith)
      ∙ ap (λ m. scan m (32 ∷ cs)) (omega arith))
]

scan-separator : (j : ℕ) (cs : List ℕ) → scan 0 (separator j ++ cs) ≡ scan 0 cs
unfolding scan separator read_char
scan-separator j cs = elim (Bool-cases (j % 8 == 0)) [
  | inl eighth ↦ elim (Bool-cases (j == 0)) [
    | inl first ↦ rw (eighth, first) refl
    | inr later ↦ elim (Bool-cases (j % 16 == 0)) [
      | inl line ↦ rw (eighth, later, line) refl
      | inr half ↦ rw (eighth, later, half) refl
    ]
  ]
  | inr inside ↦ rw inside refl
]

scan-print_bytes :
    (pkt : Bytes) (n j : ℕ) (cs : List ℕ)
    → ((o : ℕ) → pkt o < 256)
    → scan 0 (print_bytes pkt n j ++ cs) ≡ bytes_from pkt n j ++ scan 0 cs
unfolding print_bytes
scan-print_bytes pkt zero j cs h = refl
scan-print_bytes pkt (suc n) j cs h =
    ap (scan 0) (append_assoc (separator j) (hex (pkt (42 + j)) ++ print_bytes pkt n (j + 1)) cs)
    ∙ scan-separator j _
    ∙ ap (scan 0) (append_assoc (hex (pkt (42 + j))) (print_bytes pkt n (j + 1)) cs)
    ∙ scan-hex (pkt (42 + j)) _ (h (42 + j))
    ∙ ap (λ bs. pkt (42 + j) ∷ bs) (scan-print_bytes pkt n (j + 1) cs h)

-- A memory of bytes: a reader of hexadecimal numbers, each of which ends with a space, that passes
-- over other characters and stops at the first `u`, gets from the printed text the bytes from
-- offset 42 on, as many as the packet is long, in order.
pub scan-print_pkt :
    (pkt : Bytes) (data_len : ℕ)
    → ((o : ℕ) → pkt o < 256)
    → scan 0 (print_pkt pkt data_len) ≡ bytes_from pkt data_len 0
unfolding print_pkt scan read_char
scan-print_pkt pkt data_len h =
    scan-print_bytes pkt data_len 0 _ h ∙ append-nil (bytes_from pkt data_len 0)
