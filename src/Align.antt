-- ===== src/Align.antt =====
-- `align_thread` of basicfwd.cpp (GODOT): it waits until the oldest announced frame is complete or,
-- under DROP, for ten timer periods at most, and passes it on to `ring3_4`.
pub mod Loss
pub mod Rows
pub mod Waiting
pub mod Ending
use dpdk_udp_receiver.Common.{
  ℕ, zero, suc, ◌+◌, ◌-◌, ◌*◌, ◌%◌, ◌^◌, Bool, true, false, ◌&&◌, Option, none, some, ltb,
  if◌then◌else◌, update, memset,
}
use dpdk_udp_receiver.Dpdk.{Dpdk}
use dpdk_udp_receiver.Channel.{
  Config, Frame, Channel, pack_num, data_length, timer_resolution_cycles,
}
use dpdk_udp_receiver.Assemble.{up}

-- The frame at hand, `udpFrame_ptr`, and the reading `prev_tsc` at which the wait for it began.
pub record Wait : Type 0 where
  pub frame : ℕ
  pub prev_tsc : ℕ

-- `for (i = 0; i < PACK_NUM; i++) if (!flags[i]) memset(data[i], 0, DATA_LENGTH)` from round `i`
-- on, with `n` rounds left.
unfoldable pub zero_rows : ℕ → ℕ → Frame → Frame
zero_rows zero i f = f
zero_rows (suc n) i f =
    zero_rows n (i + 1)
      (if f.flags i then f else record f { bytes = memset f.bytes (i * data_length) 0 data_length })

-- `cur_tsc - prev_tsc > TIMER_RESOLUTION_CYCLES * 10` over `uint64_t`.
unfoldable pub timed_out : ℕ → ℕ → Bool
timed_out prev cur = ltb (timer_resolution_cycles * 10) ((cur + 2 ^ 64 - prev) % 2 ^ 64)

module _ (cfg : Config) (d : Dpdk) where
  -- `drop_count++` and the clean-up of a frame that was given up.
  unfoldable pub drop_frame : ℕ → Channel d → Channel d
  drop_frame f c = record c {
    drop_count = up c.drop_count;
    frames = update c.frames f (zero_rows pack_num 0 (c.frames f));
  }

  -- `align_num++` and the return value of rte_ring_enqueue not read.
  unfoldable pub pass_on : ℕ → Channel d → Channel d
  pass_on f c = record c { align_num = up c.align_num; ring3_4 = (d.enqueue f c.ring3_4).1 }

  -- The test of the inner loop, with the clock at `tsc`. The thread waits on as long as the result
  -- holds a frame.
  unfoldable pub check : ℕ → Wait → Channel d → Channel d × Option Wait
  check tsc w c =
      if ltb (c.frames w.frame).count (c.frames w.frame).packet_num
      then if cfg.drop && timed_out w.prev_tsc tsc
        then (pass_on w.frame (drop_frame w.frame c), none)
        else (c, some w)
      else (pass_on w.frame c, none)

  -- A round of the outer loop, or of the inner one.
  unfoldable pub align : ℕ → Channel d × Option Wait → Channel d × Option Wait
  align tsc (c, some w) = check tsc w c
  align tsc (c, none) = elim (d.dequeue c.ring2_3) [
    | none ↦ (c, none)
    | some (f, rest) ↦ (record c { ring2_3 = rest }, some (record { frame = f; prev_tsc = tsc }))
  ]
