-- ===== src/Boot/Orderly.antt =====
-- From the start of the program to any access of the threads of a channel.
use dpdk_udp_receiver.Common.{
  ℕ, ◌≡◌, true, false, some, List, All-get_elem?, get_elem?, ℤ, Bytes, ok,
}
use dpdk_udp_receiver.Dpdk.{Dpdk, Lawful}
use dpdk_udp_receiver.Channel.{Config, Packet, Frame, Channel}
use dpdk_udp_receiver.Assemble.{new_consumer}
use dpdk_udp_receiver.Send.{Sender}
use dpdk_udp_receiver.Pipeline.Life.{IsEmpty}
use dpdk_udp_receiver.Pipeline.View.{AreBytes}
use dpdk_udp_receiver.Setup.{Makers, frame_pool_size}
use dpdk_udp_receiver.Setup.Fresh.{IsMaker, IsNew, timer_init-IsNew}
use dpdk_udp_receiver.Ports.{Ethdev}
use dpdk_udp_receiver.Cpus.{CpuSets}
use dpdk_udp_receiver.Boot.{Machine, Running, waits, boot}
use dpdk_udp_receiver.Boot.Channels.{as_started}
use dpdk_udp_receiver.Boot.Delivers.{boot-AreNew}
use dpdk_udp_receiver.Accesses.{
  away, Taking, seeks, Sending, idles, Threads, consumer_access, send_access, Run,
}
use dpdk_udp_receiver.Accesses.Spread.{IsOrderly}
use dpdk_udp_receiver.Accesses.Fresh.{IsNew-IsOrdered}
use dpdk_udp_receiver.Accesses.Safety.{IsCalm, Run-IsOrderly}
use dpdk_udp_receiver.Accesses.Promises.{Run-goes_well}

module _ (cfg : Config) (d : Dpdk) (laws : Lawful d) where
  -- The threads of a channel before their first accesses.
  abbrev pub launched : Sender → Packet → Channel d → Threads d
  launched sender p c = record {
    chan = c;
    taking = record { place = away; packet = p; locals = new_consumer };
    aligning = seeks;
    sending = idles;
    sender = sender;
  }

  -- On memory of bytes in which every frame is empty, and with calls that do what they promise:
  -- when `main` gets as far as to wait for its receive threads, and no index of a channel and no
  -- message of a send thread is a null pointer, then on every channel that it has
  -- made, without DROP, and in whatever order its threads have their accesses from their start on,
  -- as long as the consumer is met by what it counts on: its 16384 frames are in strict order, and
  -- the next access of the consumer and that of the send thread neither fault nor panic.
  pub boot-goes_well :
      (g : Makers d) (made : IsMaker d g) (e : Ethdev) (m : Machine e) (sets : CpuSets) (eal : ℤ)
      (lcores : List ℕ) (messages : ℕ → Bytes) (frames : ℕ → Frame) (mask : sets.Mask) (s : g.State)
      (devices : e.State) (sender : Sender) (r : Running d e sets) (i : ℕ) (c : Channel d)
      (p : Packet) (y : Threads d)
      → cfg.drop ≡ false
      → AreBytes messages
      → ((f : ℕ) → IsEmpty (frames f))
      → boot cfg d g e m sets eal lcores messages frames mask s devices ≡ waits r
      → get_elem? r.channels i ≡ some c
      → Run cfg d (IsCalm cfg d laws true frame_pool_size) (launched sender p (as_started c)) y
      → IsCalm cfg d laws true frame_pool_size y
      → IsOrderly d true frame_pool_size y
        × ((t : Channel d × Taking) × (consumer_access cfg d (y.chan, y.taking) ≡ ok t))
        × ((t : Channel d × Sending × Sender) × (send_access cfg d (y.chan, y.sending, y.sender)
              ≡ ok t))
  boot-goes_well g made e m sets eal lcores messages frames mask s devices sender r i c p y never
        bytes zeroed eq at run calm =
      let all =
        boot-AreNew cfg d laws g made e m sets eal lcores messages frames mask s devices sender r
          bytes zeroed eq in
      let new = All-get_elem? (IsNew d) r.channels i c all at in
      let begun =
        IsNew-IsOrdered d true (as_started c) p new_consumer (timer_init-IsNew d false c new) in
      let ends = Run-goes_well cfg d laws frame_pool_size never begun run calm in
      (Run-IsOrderly cfg d laws true frame_pool_size (λ q. never) begun run, ends.0, ends.1)
