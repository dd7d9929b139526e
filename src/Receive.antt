-- ===== src/Receive.antt =====
-- `lcore_main` of basicfwd.cpp (NOZOMI): it takes bursts of packets from the ports of the first
-- three channels and hands copies to their consumer threads.
pub mod Delivery
pub mod Ports
use dpdk_udp_receiver.Common.{
  ℕ, zero, suc, ◌+◌, Option, none, some, List, [], ◌∷◌, ltb, ◌==◌, if◌then◌else◌, Bytes, update,
  memcpy, Result, ok, panic, fault, ◌>>=◌, length, drop,
}
use dpdk_udp_receiver.Dpdk.{Dpdk}
use dpdk_udp_receiver.Channel.{Channel}

-- The part of `rte_mbuf` that is read: the bytes from `buf_addr` on, and where the packet begins.
pub record Mbuf : Type 0 where
  pub buf : Bytes
  pub data_off : ℕ

-- `(char *)bufs[i]->buf_addr + bufs[i]->data_off + 42`: what follows the Ethernet, IP and UDP
-- headers.
abbrev pub payload_of : Mbuf → Bytes
payload_of b i = b.buf (b.data_off + 42 + i)

-- `for (i = 0; i < nb_rx; i++) rte_memcpy(msg[i], tmp_packet_ptr, 1472)`
unfoldable pub copy_burst : List ℕ → List Mbuf → (ℕ → Bytes) → ℕ → Bytes
copy_burst [] bs mem = mem
copy_burst (o ∷ os) [] mem = mem
copy_burst (o ∷ os) (b ∷ bs) mem =
    copy_burst os bs (update mem o (memcpy (mem o) 0 (payload_of b) 1472))

-- `nb_tx`: the forwarding is commented out.
abbrev pub nb_tx : ℕ
nb_tx = 0

module _ (d : Dpdk) where
  -- A burst with the message buffers `msg` at hand. The result of rte_ring_enqueue_bulk is
  -- unsigned, so the test below 0 never holds.
  unfoldable pub deliver : List ℕ → d.Pool → List Mbuf → Channel d → Result (Channel d × List Mbuf)
  deliver msg rest bufs c =
      let (sent, ring) = d.enqueue_bulk msg c.ring1_2 in
      if ltb sent 0
      then panic
      else ok (
        record c { send_pool = rest; messages = copy_burst msg bufs c.messages; ring1_2 = ring },
        drop nb_tx bufs,
      )

  -- One channel's turn with the burst `bufs`, and the mbufs that are freed.
  unfoldable pub receive : List Mbuf → Channel d → Result (Channel d × List Mbuf)
  receive bufs c =
      if length bufs == 0 then ok (c, []) else elim (d.get_bulk (length bufs) c.send_pool) [
        | none ↦ panic
        | some (msg, rest) ↦ deliver msg rest bufs c
      ]

  -- Turn `jj` and those after it, `n` of them, over the channels from `jj` on. `bursts` is what
  -- each port gives; a channel that is not there is read out of bounds.
  unfoldable pub turns : ℕ → (ℕ → List Mbuf) → List (Channel d) → Result (List (Channel d))
  turns zero bursts cs = ok cs
  turns (suc n) bursts [] = fault
  turns (suc n) bursts (c ∷ cs) = do
    (c', freed) ← receive (bursts c.proc_id) c
    cs' ← turns n bursts cs
    ok (c' ∷ cs')

  -- A round of the loop: `for (jj = 0; jj < 3; jj++)`.
  unfoldable pub lcore_round : (ℕ → List Mbuf) → List (Channel d) → Result (List (Channel d))
  lcore_round bursts cs = turns 3 bursts cs
