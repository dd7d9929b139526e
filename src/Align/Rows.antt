-- ===== src/Align/Rows.antt =====
-- What the clean-up of a dropped frame keeps, and what it loses.
use dpdk_udp_receiver.Common.{
  ℕ, zero, suc, ◌+◌, ◌*◌, ◌≤◌, ◌<◌, ◌≡◌, ◌≢◌, inl, inr, ◌∙◌, refl, arith, if◌then◌else◌, memset,
  Bool-cases, ==_iff, ◌==◌,
}
use dpdk_udp_receiver.Channel.{Frame, pack_num, data_length}
use dpdk_udp_receiver.Align.{zero_rows}

-- The body of the loop.
abbrev clear_row : ℕ → Frame → Frame
clear_row i f =
    if f.flags i then f else record f { bytes = memset f.bytes (i * data_length) 0 data_length }

flags-clear_row : (i : ℕ) (f : Frame) → (clear_row i f).flags ≡ f.flags
flags-clear_row i f = ground arith

clear_row-other :
    (i r o : ℕ) (f : Frame)
    → r ≢ i
    → o < data_length
    → (clear_row i f).bytes (r * data_length + o) ≡ f.bytes (r * data_length + o)
clear_row-other i r o f ne h = ground arith

clear_row_self :
    (i o : ℕ) (f : Frame)
    → o < data_length
    → (clear_row i f).bytes (i * data_length + o)
      ≡ (if f.flags i then f.bytes (i * data_length + o) else 0)
clear_row_self i o f h = ground arith

pub flags-zero_rows : (n i : ℕ) (f : Frame) → (zero_rows n i f).flags ≡ f.flags
unfolding zero_rows
flags-zero_rows zero i f = refl
flags-zero_rows (suc n) i f = flags-zero_rows n (i + 1) (clear_row i f) ∙ flags-clear_row i f

-- A row before the first round's is as it was.
zero_rows-before :
    (n i : ℕ) (f : Frame) (r o : ℕ)
    → r < i
    → o < data_length
    → (zero_rows n i f).bytes (r * data_length + o) ≡ f.bytes (r * data_length + o)
unfolding zero_rows
zero_rows-before zero i f r o lo h = refl
zero_rows-before (suc n) i f r o lo h =
    zero_rows-before n (i + 1) (clear_row i f) r o (omega arith) h
    ∙ clear_row-other i r o f (omega arith) h

-- The byte at column `o` of row `r` after the loop.
zero_rows-byte :
    (n i : ℕ) (f : Frame) (r o : ℕ)
    → i ≤ r
    → r < i + n
    → o < data_length
    → (zero_rows n i f).bytes (r * data_length + o)
      ≡ (if f.flags r then f.bytes (r * data_length + o) else 0)
unfolding zero_rows
zero_rows-byte zero i f r o lo hi h = absurd (omega arith)
zero_rows-byte (suc n) i f r o lo hi h = elim (Bool-cases (i == r)) [
  | inl e ↦
      rw (← (==_iff i r).0 e)
        (zero_rows-before n (i + 1) (clear_row i f) i o (omega arith) h ∙ clear_row_self i o f h)
  | inr e ↦
      zero_rows-byte n (i + 1) (clear_row i f) r o (ground arith) (omega arith) h
      ∙ rw (flags-clear_row i f, clear_row-other i r o f (ground arith) h)
]

-- The clean-up of a dropped frame leaves each flagged row as it is, and fills every other with
-- zeros.
pub zero_rows_lem :
    (f : Frame) (r o : ℕ)
    → r < pack_num
    → o < data_length
    → (zero_rows pack_num 0 f).bytes (r * data_length + o)
      ≡ (if f.flags r then f.bytes (r * data_length + o) else 0)
zero_rows_lem f r o hr ho = zero_rows-byte pack_num 0 f r o (omega arith) (omega arith) ho
