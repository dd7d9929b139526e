-- ===== src/Boot/Delivers.antt =====
-- From the start of the program to a message.
use dpdk_udp_receiver.Common.{
  true, ℕ, ◌*◌, ◌≡◌, subst, List, length, All, All-map, All-over, ℤ, Bytes,
}
use dpdk_udp_receiver.Dpdk.{Dpdk, Lawful}
use dpdk_udp_receiver.Channel.{Config, Packet, Frame, Channel}
use dpdk_udp_receiver.Assemble.{new_consumer, rounds}
use dpdk_udp_receiver.Send.{Sender}
use dpdk_udp_receiver.Pipeline.Life.{IsEmpty}
use dpdk_udp_receiver.Pipeline.View.{AreBytes}
use dpdk_udp_receiver.Pipeline.Journey.{onward, Delivered}
use dpdk_udp_receiver.Setup.{let_start, Makers}
use dpdk_udp_receiver.Setup.Fresh.{IsMaker, IsGood, IsNew, set_up-IsSafe, timer_init-IsNew}
use dpdk_udp_receiver.Ports.{Ethdev}
use dpdk_udp_receiver.Cpus.{CpuSets}
use dpdk_udp_receiver.Boot.{Machine, Running, waits, boot}
use dpdk_udp_receiver.Boot.Channels.{boot-Done}

module _ (cfg : Config) (d : Dpdk) (laws : Lawful d) where
  -- The channel once the timer thread has let its consumer begin, with what the receive thread has
  -- put into the ring, the pool and the message buffers.
  abbrev pub supplied : d.Ring → d.Pool → (ℕ → Bytes) → Channel d → Channel d
  supplied r m mem c = record c { assem_init = true; ring1_2 = r; send_pool = m; messages = mem }

  -- A frame that the channel gets from its pool, and the message that the packets lead to: after
  -- `n` rounds of the consumer thread from its beginning, two of the align thread and one of the
  -- send thread.
  abbrev pub Reaches : ℕ → ℕ → ℕ → ℕ → List Packet → Sender → Channel d → Type 0
  Reaches n seq t1 t2 ps sender c =
      (f : ℕ) × (m : d.Pool) × Delivered cfg d f seq ps m sender
        (onward cfg d (rounds cfg d n (c, new_consumer)) t1 t2 sender)

  let_start-IsNew : (c : Channel d) → IsNew d c → IsNew d (let_start d c)
  unfolding let_start
  let_start-IsNew c new = timer_init-IsNew d true c new

  -- The channels of a start that comes to its end.
  pub boot-AreNew :
      (g : Makers d) (made : IsMaker d g) (e : Ethdev) (m : Machine e) (sets : CpuSets) (eal : ℤ)
      (lcores : List ℕ) (messages : ℕ → Bytes) (frames : ℕ → Frame) (mask : sets.Mask) (s : g.State)
      (devices : e.State) (sender : Sender) (r : Running d e sets)
      → AreBytes messages
      → ((f : ℕ) → IsEmpty (frames f))
      → boot cfg d g e m sets eal lcores messages frames mask s devices ≡ waits r
      → All (IsNew d) r.channels
  boot-AreNew g made e m sets eal lcores messages frames mask s devices sender r bytes zeroed eq =
      let (cs, ready, made_them, opened, has, done) =
        boot-Done cfg d g e m sets eal lcores messages frames mask s devices r eq in
      let good =
        subst (IsGood cfg d laws g made (length lcores * 3) sender) made_them
          (set_up-IsSafe cfg d laws g made (length lcores) messages frames sender s bytes zeroed) in
      rw done
        (All-over (IsNew d) (let_start d) cs (All-map _ _ (λ c h. let_start-IsNew c h.1) cs good.1))
