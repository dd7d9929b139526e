-- ===== src/Tests/Frames.antt =====
-- The theorems about one frame, at concrete frames and packets.
use dpdk_udp_receiver.Common.{
  ℕ, ◌+◌, ◌*◌, ◌<◌, ◌≡◌, ◌≢◌, ◌↔◌, refl, arith, true, false, none, some, [], ◌∷◌, Result, ok, panic,
  fault, update,
}
use dpdk_udp_receiver.Dpdk.Listed.{listed, listed-Lawful}
use dpdk_udp_receiver.Channel.{packet_at, Frame, Channel, pack_num, data_length}
use dpdk_udp_receiver.Assemble.Messages.{held, round-keeps-messages}
use dpdk_udp_receiver.Assemble.{
  Consumer, running, assemble, assemble_all, rounds, round, poll, handle, run_packet, count_packet,
  open_tmp, take_frame, open_frame, copy_packet,
}
use dpdk_udp_receiver.Assemble.Copy.{IsValid, Holds}
use dpdk_udp_receiver.Assemble.Frames.{Assembled, assemble_all-Assembled}
use dpdk_udp_receiver.Assemble.Errors.{IsWithout, assemble-fails_iff, assemble_stale}
use dpdk_udp_receiver.Assemble.Gaps.{Drained, rounds-Drained}
use dpdk_udp_receiver.Align.{drop_frame}
use dpdk_udp_receiver.Align.Loss.{drop_frame-Assembled}
use dpdk_udp_receiver.Send.{send_frame}
use dpdk_udp_receiver.Send.Message.{Sent, send_frame-Sent}
use dpdk_udp_receiver.Tests.{idle, everything, defaults, packet, blank, channel}

abbrev started : Consumer
started = record { loop = running; packet_seq = 0; tmp_frame = none }

packet-IsValid : (q : ℕ) → q < pack_num → IsValid (packet 3 q)
packet-IsValid q h = record { seq_in = h; len_in = omega arith }

abbrev two_packets : Result (Channel listed × Consumer)
two_packets = assemble_all everything listed (packet 3 1 ∷ packet 3 0 ∷ []) (channel [] [], started)

two_packets-Assembled :
    Assembled everything listed 100 3
      (packet 3 1)
      (packet 3 0 ∷ [])
      (channel [] [])
      started
      two_packets
two_packets-Assembled =
    assemble_all-Assembled everything listed (packet 3 1) (packet 3 0 ∷ []) 3 100 (101 ∷ [])
      (channel [] []) started refl refl refl
      ((packet-IsValid 1 (omega arith), refl), ((packet-IsValid 0 (omega arith), refl), tt))
      ((omega arith, tt), (tt, tt))

assemble_all-Assembled_example :
    Assembled everything listed 100 3
      (packet 3 2)
      (packet 3 0 ∷ packet 3 43 ∷ [])
      (channel [] [])
      started
      (assemble_all everything listed
        (packet 3 2 ∷ packet 3 0 ∷ packet 3 43 ∷ [])
        (channel [] [], started))
assemble_all-Assembled_example =
    assemble_all-Assembled everything listed (packet 3 2) (packet 3 0 ∷ packet 3 43 ∷ []) 3 100
      (101 ∷ []) (channel [] []) started refl refl refl
      (
        (packet-IsValid 2 (omega arith), refl),
        ((packet-IsValid 0 (omega arith), refl), ((packet-IsValid 43 (omega arith), refl), tt)),
      )
      ((omega arith, (omega arith, tt)), ((omega arith, tt), (tt, tt)))

abbrev exhausted : Channel listed
exhausted = record (channel [] []) { frame_pool = [] }

assemble-fails_iff_example :
    ((assemble everything listed (packet 3 44) (channel [] [], started) ≡ panic)
      ↔ IsWithout everything listed 3 (channel [] []) started)
    × ((assemble everything listed (packet 3 44) (channel [] [], started) ≡ fault)
        ↔ ((¬ IsValid (packet 3 44)) × (¬ IsWithout everything listed 3 (channel [] []) started)))
assemble-fails_iff_example =
    assemble-fails_iff everything listed (packet 3 44) (channel [] []) started

abbrev holding : Consumer
holding = record { loop = running; packet_seq = 0; tmp_frame = some 100 }

assemble_stale_example :
    (e : Channel listed) × (assemble everything listed (packet 3 1) (exhausted, holding)
      ≡ ok (e, holding))
    × (e.index 3 ≡ some 100)
    × ((s : ℕ) → exhausted.index s ≡ some 100 → e.index s ≡ some 100)
    × (e.ring2_3 ≡ (listed.enqueue 100 exhausted.ring2_3).1)
assemble_stale_example =
    assemble_stale everything listed (packet 3 1) 100 exhausted holding
      (packet-IsValid 1 (omega arith)) refl refl refl

rounds-Drained_example :
    Drained defaults listed listed-Lawful refl
      (0 ∷ 1 ∷ 4 ∷ [])
      (channel [] (0 ∷ 1 ∷ 4 ∷ []))
      started
      (rounds defaults listed 3 (channel [] (0 ∷ 1 ∷ 4 ∷ []), started))
rounds-Drained_example =
    rounds-Drained defaults listed listed-Lawful refl (0 ∷ 1 ∷ 4 ∷ []) (channel [] (0 ∷ 1 ∷ 4 ∷ []))
      started refl refl (omega arith) (omega arith)

-- With packet 1 of the frame 3 in its row, the frame is read as packet 1 flagged it.
abbrev one_row : Frame
one_row = record blank { count = 1; bytes = λ _. 7; flags = update (λ _. false) 1 true }

drop_frame-Assembled_example :
    (let e = two_packets-Assembled.end in
      Holds ((drop_frame everything listed 100 e).frames 100) (packet 3 1)
      × ((i o : ℕ)
          → i < pack_num
          → o < data_length
          → i ≢ 1
          → ((drop_frame everything listed 100 e).frames 100).bytes (i * data_length + o) ≡ 0))
drop_frame-Assembled_example =
    drop_frame-Assembled everything listed 100 3 (packet 3 1) (packet 3 0 ∷ []) (channel [] [])
      started two_packets two_packets-Assembled refl (λ i. refl) (packet-IsValid 1 (omega arith))

send_frame-Sent_example :
    Sent listed 100 (channel [] []) idle (send_frame listed 100 (channel [] [], idle))
send_frame-Sent_example = send_frame-Sent listed 100 (channel [] []) idle (omega arith)

abbrev three_buffers : Channel listed
three_buffers = channel (8 ∷ []) (0 ∷ 1 ∷ [])

abbrev after_one : Result (Channel listed × Consumer)
after_one = round defaults listed (three_buffers, started)

-- One round over the buffer 0, which the ring holds.
abbrev one_round : Result (Channel listed × Consumer)
one_round = round everything listed (channel [] (0 ∷ []), started)

after_round : (s : Channel listed × Consumer) × (one_round ≡ ok s)
unfolding round poll handle run_packet count_packet assemble open_tmp take_frame open_frame
    copy_packet packet_at
after_round = (_, refl)

round-keeps-messages_example : held listed 0 after_round.0.0 ≡ held listed 0 (channel [] (0 ∷ []))
round-keeps-messages_example =
    round-keeps-messages everything listed listed-Lawful 0 (channel [] (0 ∷ [])) started
      after_round.0 after_round.1
