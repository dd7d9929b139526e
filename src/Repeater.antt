-- ===== src/Repeater.antt =====
-- The threads of repeater.cpp: `thread2` makes messages and puts them into `app_id_ring`, `thread1`
-- takes them out and handles them.
pub mod Order
pub mod Commands
pub mod Buffers
pub mod Startup
pub mod Launch
use dpdk_udp_receiver.Common.{
  ℕ, ◌+◌, ◌%◌, Bool, true, not, Option, none, some, List, [], ◌∷◌, ◌++◌, ◌≡◌, ◌==◌, if◌then◌else◌,
  update,
}
use dpdk_udp_receiver.Dpdk.{Dpdk}
use dpdk_udp_receiver.Route.Rings.{Registry}
use dpdk_udp_receiver.Route.{DhsmMessage, RouteTable, handle_msg}

-- The locals `x` and `y` of `thread2`, and the message made of them.
pub record Maker : Type 0 where
  pub x : ℕ
  pub y : Bool

unfoldable pub new_maker : Maker
new_maker = record { x = 0; y = true }

unfoldable pub command : Maker → DhsmMessage
command k = record { dhsm_id = 0; channel_id = k.x; flag = k.y }

-- `x++` on a `uint8_t`, and the start of the next turn at 16.
unfoldable pub advance : Maker → Maker
advance k =
    let next = (k.x + 1) % 256 in
    if next == 16 then record { x = 0; y = not k.y } else record { x = next; y = k.y }

module _ (d : Dpdk) (g : Registry) where
  -- What the threads share, and their locals. `messages` is the memory of the objects of
  -- `app_id_mempool`; `rings` are the rings that exist.
  pub record Desk : Type 0 where
    pub app_id_ring : d.Ring
    pub app_id_mempool : d.Pool
    pub messages : ℕ → DhsmMessage
    pub maker : Maker
    pub table : RouteTable
    pub rings : g.State

  -- A round of `thread2`. The result of rte_ring_enqueue is not read.
  unfoldable pub thread2_round : Desk → Desk
  thread2_round s = elim (d.get s.app_id_mempool) [
    | none ↦ s
    | some (o, rest) ↦ record s {
      app_id_mempool = rest;
      messages = update s.messages o (command s.maker);
      app_id_ring = (d.enqueue o s.app_id_ring).1;
      maker = advance s.maker;
    }
  ]

  -- A round of `thread1`. What it prints is left out.
  unfoldable pub thread1_round : Desk → Desk
  thread1_round s = elim (d.dequeue s.app_id_ring) [
    | none ↦ s
    | some (o, rest) ↦
        let (t, rings) = (handle_msg g (some (s.messages o)) (s.table, s.rings)).1 in
        record s {
          app_id_ring = rest;
          app_id_mempool = d.put o s.app_id_mempool;
          table = t;
          rings = rings;
        }
  ]
