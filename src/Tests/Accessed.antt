-- ===== src/Tests/Accessed.antt =====
-- The theorems about single accesses, at a run in which the threads take turns in the middle of
-- their rounds, and at a frame that is given up while a packet is copied into it.
use dpdk_udp_receiver.Common.{
  ℕ, ◌+◌, ◌<◌, ◌≤◌, ◌≡◌, ◌≢◌, refl, arith, ==_iff, true, false, none, some, List, [], ◌∷◌, ok,
  fault, update, times,
}
use dpdk_udp_receiver.Dpdk.Listed.{listed, listed-Lawful}
use dpdk_udp_receiver.Channel.{Config, Frame, Channel, packet_at, pack_num}
use dpdk_udp_receiver.Assemble.{Consumer, running, take_frame, copy_packet, count_packet}
use dpdk_udp_receiver.Align.{drop_frame, pass_on, timed_out}
use dpdk_udp_receiver.Send.{Sender}
use dpdk_udp_receiver.Accesses.{
  away, fills, adds, Taking, seeks, Sending, idles, Threads, new_frame, take_packet, get_frame,
  open_new, announce, ask, access_at, consumer_access, align_access, send_access, consumes, aligns,
  sends, Run, here, next,
}
use dpdk_udp_receiver.Accesses.Spread.{held, copying, linked, IsOrderly}
use dpdk_udp_receiver.Accesses.Safety.{IsCalm, Run-IsOrderly}
use dpdk_udp_receiver.Accesses.Promises.{Run-goes_well, Run-full, Run-owned, Run-sends}
use dpdk_udp_receiver.Accesses.Races.{Anything, IsLate, meeting, IsLate-fault, IsLate-count}
use dpdk_udp_receiver.Tests.{
  everything, packet, blank, ring_of, channel, memory-AreBytes, idle, value_of,
}

-- Without DROP.
abbrev patient : Config
patient = record { godot = true; kaze = true; drop = false }

abbrev complete : Frame
complete = record { count = 44; frame_seq = 9; packet_num = 44; bytes = λ _. 0; flags = λ _. false }

abbrev running_consumer : Consumer
running_consumer = record { loop = running; packet_seq = 0; tmp_frame = none }

-- Frame 7 is complete and passed on; a packet of the frame 3 waits in `ring1_2`.
abbrev ready : Threads listed
ready = record {
  chan = record (channel [] (0 ∷ [])) {
    index = update (λ _. none) 9 (some 7);
    frames = update (λ _. blank) 7 complete;
    ring3_4 = ring_of (7 ∷ []);
  };
  taking = record { place = away; packet = packet 0 0; locals = running_consumer };
  aligning = seeks;
  sending = idles;
  sender = idle;
}

ready-IsOrderly : IsOrderly listed true 3 ready
ready-IsOrderly = record {
  tidy = record {
    once = λ f. ground (arith, ==_iff 100 f, ==_iff 101 f, ==_iff 7 f);
    listed = λ s f e. ground (arith, ==_iff 9 s, ==_iff 7 f);
    found = λ f h. (
      ground (arith, ==_iff 7 f),
      record { full_size = ground (arith, ==_iff 7 f); small = ground (arith, ==_iff 7 f) },
    );
    filled = λ q f h. ground (arith, ==_iff 7 f);
    cleared = λ q f h. record {
      no_packets = ground (arith, ==_iff 100 f, ==_iff 101 f, ==_iff 7 f);
      no_flags = λ i lt. ground (arith, ==_iff 100 f, ==_iff 101 f, ==_iff 7 f);
    };
  };
  knows = tt;
  patient = λ q. tt;
  counted = omega arith;
  room_announced = omega arith;
  room_passed = omega arith;
  bytes = memory-AreBytes;
}

abbrev consume : Threads listed → Threads listed
consume x =
    let (c, t) = value_of (x.chan, x.taking) (consumer_access patient listed (x.chan, x.taking)) in
    record x { chan = c; taking = t }

abbrev align_once : Threads listed → Threads listed
align_once x =
    let (c, a) = align_access patient listed 5 (x.chan, x.aligning) in
    record x { chan = c; aligning = a }

abbrev send_once : Threads listed → Threads listed
send_once x =
    let (c, g, s) =
      value_of (x.chan, x.sending, x.sender)
        (send_access patient listed (x.chan, x.sending, x.sender)) in
    record x { chan = c; sending = g; sender = s }

-- The consumer takes the packet and looks for its frame; the send thread takes the frame 7.
abbrev looked : Threads listed
looked = send_once (consume (consume ready))

abbrev Calm : Threads listed → Type 0
Calm = IsCalm patient listed listed-Lawful true 3

ready-looked : Run patient listed Calm ready looked
unfolding consumer_access access_at take_packet ask send_access packet_at count_packet
ready-looked =
    next
      (next (next here tt (consumes _ _ refl))
        (record { seq_in = omega arith; len_in = omega arith }, λ q f e. absurd (cc))
        (consumes _ _ refl))
      (λ e. cc) (sends _ _ _ refl)

-- The frame is got, opened and announced, and the align thread takes it up.
abbrev announced : Threads listed
announced = align_once (consume (consume (consume looked)))

looked-announced : Run patient listed Calm ready announced
unfolding consumer_access access_at take_packet ask send_access packet_at count_packet get_frame
    take_frame open_new new_frame copy_packet announce align_access
looked-announced =
    next
      (next (next (next ready-looked (λ e. cc) (consumes _ _ refl)) tt (consumes _ _ refl)) tt
        (consumes _ _ refl))
      tt (aligns 5 _ _ refl)

Run-IsOrderly_example : IsOrderly listed true 3 announced
Run-IsOrderly_example =
    Run-IsOrderly patient listed listed-Lawful true 3 {x = ready} {y = announced} (λ q. refl)
      ready-IsOrderly looked-announced

not_none : (p : ℕ × List ℕ) → some p ≢ none
not_none p e = cc

looked-stocked : Calm looked
unfolding consumer_access access_at take_packet ask packet_at count_packet send_access
looked-stocked e = not_none (100, 101 ∷ []) e

Run-goes_well_example :
    ((s : Channel listed × Taking) × (consumer_access patient listed (looked.chan, looked.taking)
        ≡ ok s))
    × ((s : Channel listed × Sending × Sender) × (send_access patient listed
            (looked.chan, looked.sending, looked.sender)
          ≡ ok s))
unfolding consumer_access access_at take_packet ask packet_at count_packet
Run-goes_well_example =
    Run-goes_well patient listed listed-Lawful 3 {x = ready} {y = looked} refl ready-IsOrderly
      ready-looked looked-stocked

Run-full_example :
    (pack_num ≤ (announced.chan.frames 7).count)
    × (copying announced.taking.place announced.taking.locals.tmp_frame
          (announced.chan.index announced.taking.packet.frame_seq)
        ≢ some 7)
unfolding consumer_access access_at take_packet ask send_access packet_at count_packet get_frame
    take_frame open_new new_frame copy_packet announce align_access
Run-full_example =
    Run-full patient listed listed-Lawful 3 {x = ready} {y = announced} refl ready-IsOrderly
      looked-announced 7 refl

-- Frame 7 has one packet of 44, and the wait for it has begun at 0.
abbrev partial : Frame
partial = record { count = 1; frame_seq = 3; packet_num = 44; bytes = λ _. 0; flags = λ _. false }

abbrev crowded : Channel listed
crowded = record (channel [] []) {
  index = update (λ _. none) 3 (some 7);
  frames = update (λ _. blank) 7 partial;
}

crowded-IsLate : IsLate everything listed crowded (packet 3 1) 7 0 200000001
unfolding timed_out
crowded-IsLate = record {
  dropping = refl;
  looked_up = refl;
  named = refl;
  in_index = omega arith;
  short = omega arith;
  late = refl;
  none_passed = refl;
  room = omega arith;
}

IsLate-fault_example :
    (y : Threads listed) × Run everything listed Anything
      (meeting everything listed fills crowded (packet 3 1) running_consumer 7 0 idle)
      y
    × (consumer_access everything listed (y.chan, y.taking) ≡ fault)
IsLate-fault_example =
    IsLate-fault everything listed listed-Lawful crowded (packet 3 1) running_consumer 7 0 200000001
      idle crowded-IsLate

IsLate-count_example :
    (y : Threads listed) × Run everything listed Anything
      (meeting everything listed adds crowded (packet 3 1) running_consumer 7 0 idle)
      y
    × (0 < times 7 (listed.free y.chan.frame_pool))
    × ((y.chan.frames 7).count ≡ 1)
IsLate-count_example =
    IsLate-count everything listed listed-Lawful crowded (packet 3 1) running_consumer 7 0 200000001
      idle crowded-IsLate

-- The wait for it goes on, while the consumer is about to copy a packet into it.
abbrev met : Threads listed
met = meeting everything listed fills crowded (packet 3 1) running_consumer 7 0 idle

met-IsOrderly : IsOrderly listed false 3 met
met-IsOrderly = record {
  tidy = record {
    once = λ f. ground (arith, ==_iff 100 f, ==_iff 101 f, ==_iff 7 f);
    listed = λ s f e. ground (arith, ==_iff 3 s, ==_iff 7 f);
    found = λ f h. (
      ground (arith, ==_iff 7 f),
      record { full_size = ground (arith, ==_iff 7 f); small = ground (arith, ==_iff 7 f) },
    );
    filled = λ q. absurd (cc);
    cleared = λ q. absurd (cc);
  };
  knows = (record { seq_in = omega arith; len_in = omega arith }, λ q. absurd (cc));
  patient = λ q. absurd (cc);
  counted = omega arith;
  room_announced = omega arith;
  room_passed = omega arith;
  bytes = memory-AreBytes;
}

-- It is given up.
abbrev given_up : Threads listed
given_up = record met {
  chan = pass_on everything listed 7 (drop_frame everything listed 7 crowded);
  aligning = seeks;
}

met-given_up : Run everything listed (IsCalm everything listed listed-Lawful false 3) met given_up
unfolding align_access timed_out
met-given_up =
    next (next (next here tt (aligns 200000001 _ _ refl)) tt (aligns 0 _ _ refl)) tt
      (aligns 0 _ _ refl)

Run-owned_example :
    (times 100 (listed.free given_up.chan.frame_pool) ≡ 1)
    × (held 100 none + held 100 none ≡ 0)
    × (linked listed given_up.chan.frame_pool given_up.chan.ring2_3 given_up.chan.ring3_4 fills none
          seeks idles 100
        ≡ 0)
    × ((s : ℕ) → given_up.chan.index s ≢ some 100)
unfolding drop_frame pass_on
Run-owned_example =
    Run-owned everything listed listed-Lawful 3 {x = met} {y = given_up} 100 (101 ∷ [])
      met-IsOrderly met-given_up refl

Run-sends_example :
    (s : Channel listed × Sending × Sender) × (send_access everything listed
        (given_up.chan, given_up.sending, given_up.sender)
      ≡ ok s)
unfolding drop_frame pass_on
Run-sends_example =
    Run-sends everything listed listed-Lawful false 3 {x = met} {y = given_up} (λ q. absurd (cc))
      met-IsOrderly met-given_up
