-- ===== src/Pipeline.antt =====
-- The threads of one channel together: consumer, align and send thread share the channel, and a
-- round of each is a step of the whole.
pub mod Life
pub mod View
pub mod Consumes
pub mod Aligns
pub mod Sends
pub mod Memory
pub mod Promises
pub mod Safety
pub mod Journey
use dpdk_udp_receiver.Common.{ℕ, ◌<◌, ◌≡◌, ◌≢◌, Option, none, some, Result, ok, Bytes}
use dpdk_udp_receiver.Dpdk.{Dpdk}
use dpdk_udp_receiver.Channel.{Config, Channel}
use dpdk_udp_receiver.Assemble.{Consumer, round}
use dpdk_udp_receiver.Align.{Wait, align}
use dpdk_udp_receiver.Timer.{prepare, start, report}
use dpdk_udp_receiver.Send.{Sender, send}
use dpdk_udp_receiver.Setup.{let_start}
use View.{AreBytes}

pub record System (d : Dpdk) : Type 0 where
  pub chan : Channel d
  pub consumer : Consumer
  pub wait : Option Wait
  pub sender : Sender

module _ (cfg : Config) (d : Dpdk) where
  -- A round of one of the threads, or a delivery by the receive thread, which puts message buffers
  -- into `ring1_2` and writes to them. The consumer's rounds are those in which the frame pool
  -- is not empty: what else happens then is `Assemble.Errors`.
  pub data Step (x : System d) : System d → Type 0 where
    consumes :
        (c : Channel d) (k : Consumer)
        → d.get x.chan.frame_pool ≢ none
        → round cfg d (x.chan, x.consumer) ≡ ok (c, k)
        → Step x (record x { chan = c; consumer = k })
    aligns :
        (tsc : ℕ) (c : Channel d) (w : Option Wait)
        → align cfg d tsc (x.chan, x.wait) ≡ (c, w)
        → Step x (record x { chan = c; wait = w })
    sends :
        (c : Channel d) (s : Sender)
        → send d (x.chan, x.sender) ≡ ok (c, s)
        → Step x (record x { chan = c; sender = s })
    delivers :
        (r : d.Ring) (m : d.Pool) (mem : ℕ → Bytes)
        → AreBytes mem
        → Step x
            (record x { chan = record (x.chan) { ring1_2 = r; send_pool = m; messages = mem } })
    -- The timer thread lets the threads begin, and reports; the send thread begins too.
    prepares : Step x (record x { chan = prepare d x.chan })
    starts : Step x (record x { chan = start d x.chan })
    -- `main` lets the timer thread go on.
    permits : Step x (record x { chan = let_start d x.chan })
    reports : (count forward : ℕ) → Step x (record x { chan = (report d count forward x.chan).1 })

  pub data Reach (x : System d) : System d → Type 0 where
    here : Reach x x
    next : {y z : System d} → Reach x y → Step y z → Reach x z
