-- ===== src/Dump.antt =====
-- `print_pkt` of basicfwd.cpp: the text that it prints for a packet. Nothing calls it.
pub mod ReadBack
use dpdk_udp_receiver.Common.{
  bit_or, ℕ, zero, suc, ◌-◌, ◌+◌, ◌*◌, ◌/◌, ◌%◌, List, [], ◌∷◌, ◌++◌, ltb, ◌==◌, if◌then◌else◌,
  Bytes,
}
use dpdk_udp_receiver.Text.{codes, to_string}

-- A digit of `%x`.
unfoldable pub hex_digit : ℕ → ℕ
hex_digit n = if ltb n 10 then b'0' + n else b'a' + n - 10

-- `printf("%x ", byte)`, for a `uint8_t`.
unfoldable pub hex : ℕ → List ℕ
hex n =
    if ltb n 16
    then hex_digit n ∷ b' ' ∷ []
    else hex_digit (n / 16) ∷ hex_digit (n % 16) ∷ b' ' ∷ []

-- What is printed before byte `j`.
unfoldable pub separator : ℕ → List ℕ
separator j =
    if j % 8 == 0
    then if j == 0 then [] else if j % 16 == 0 then codes "\n" else codes "\t|\t"
    else []

-- The loop from byte `j` on, with `n` rounds left. `pkt` is the memory from `buf_addr + data_off`
-- on.
unfoldable pub print_bytes : Bytes → ℕ → ℕ → List ℕ
print_bytes pkt zero j = []
print_bytes pkt (suc n) j = separator j ++ (hex (pkt (42 + j)) ++ print_bytes pkt n (j + 1))

-- `tmp_len`, a `uint16_t`.
unfoldable pub udp_len : Bytes → ℕ
udp_len pkt = bit_or (pkt 38 * 256) (pkt 39) % 65536

unfoldable pub print_pkt : Bytes → ℕ → List ℕ
print_pkt pkt data_len =
    print_bytes pkt data_len 0
    ++ (codes "\nudp_len_new:" ++ (to_string (udp_len pkt) ++ codes "\n------------------\n"))
