-- ===== src/Cpus.antt =====
-- Where `main` of basicfwd.cpp places the threads that it starts: the masks that it gives to
-- pthread_setaffinity_np, whose result it does not read. The receive threads are not among them:
-- they run on the worker lcores, which the EAL has placed.
pub mod Apart
use dpdk_udp_receiver.Common.{ℕ, ◌+◌, Bool, List, [], ◌∷◌, ◌++◌, if◌then◌else◌}
use dpdk_udp_receiver.Dpdk.{Dpdk}
use dpdk_udp_receiver.Channel.{Config, Channel}

-- `cpu_set_t` with CPU_ZERO, CPU_SET and CPU_ISSET of sched.h, a parameter of the model.
pub record CpuSets : Type 1 where
  pub Mask : Type 0
  pub cpu_zero : Mask → Mask
  pub cpu_set : ℕ → Mask → Mask
  pub cpu_isset : ℕ → Mask → Bool

-- The vector that a thread stands in; `t1` is the timer thread.
pub data Role : Type 0 where
  assemble_threads align_threads send_threads t1 : Role

-- The CPU for a thread of the role, from the channel's `channel_id`.
unfoldable pub cpu_of : Role → ℕ → ℕ
cpu_of assemble_threads channel_id = channel_id + 60
cpu_of align_threads channel_id = channel_id + 1
cpu_of send_threads channel_id = channel_id + 40 + 1
cpu_of t1 channel_id = 4

module _ (sets : CpuSets) where
  -- A call of pthread_setaffinity_np: the thread and its mask. The channel of `t1` is 0.
  pub record Pin : Type 0 where
    pub role : Role
    pub channel : ℕ
    pub mask : sets.Mask

  -- CPU_ZERO and CPU_SET, on the one variable `mask` of `main`.
  abbrev pub single : ℕ → sets.Mask → sets.Mask
  single cpu mask = sets.cpu_set cpu (sets.cpu_zero mask)

  module _ (d : Dpdk) where
    -- The loop that starts the threads of one role, with the mask that it leaves.
    unfoldable pub pin_threads : Role → List (Channel d) → sets.Mask → List Pin × sets.Mask
    pin_threads role [] mask = ([], mask)
    pin_threads role (c ∷ cs) mask =
        let mask1 = single (cpu_of role c.channel_id) mask in
        let (pins, mask2) = pin_threads role cs mask1 in
        (record { role = role; channel = c.channel_id; mask = mask1 } ∷ pins, mask2)

    -- The loop where its macro is defined.
    unfoldable pub pin_if : Bool → Role → List (Channel d) → sets.Mask → List Pin × sets.Mask
    pin_if defined role cs mask = if defined then pin_threads role cs mask else ([], mask)

    -- The calls for all threads that `main` starts as std::thread. DOB is defined.
    unfoldable pub start_threads : Config → List (Channel d) → sets.Mask → List Pin
    start_threads cfg cs mask =
        let (assembling, mask1) = pin_threads assemble_threads cs mask in
        let (aligning, mask2) = pin_if cfg.godot align_threads cs mask1 in
        let (sending, mask3) = pin_if cfg.kaze send_threads cs mask2 in
        assembling
        ++ (aligning
            ++ (sending
                ++ (record { role = t1; channel = 0; mask = single (cpu_of t1 0) mask3 } ∷ [])))
