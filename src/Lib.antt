-- ===== src/Lib.antt =====
-- The DPDK UDP receiver and its repeater, modelled and verified.
--
-- The program. For each channel, a receive thread takes bursts of UDP packets from a port and copies
-- each packet into a message buffer, which it puts into `ring1_2`. A consumer thread takes the
-- buffers out, counts gaps in their numbers and copies each packet into its row of the frame that it
-- belongs to; the first packet of a frame takes the frame from a pool, enters it in an index by
-- sequence number, and announces it in `ring2_3`. An align thread waits until the oldest announced
-- frame is complete, or too old, and passes it on in `ring3_4`. A send thread makes the frame's
-- message, empties the frame, clears its slot of the index and puts it back into the pool. A timer
-- thread lets the others begin and reports their counters. The repeater is a program of its own: it
-- keeps a table of which DHSM wants which channel, and a ring for each such pair.
--
-- Files, with the code that each models:
--   Channel    Data_Struct.h: the packet, the frame, `Thread_arg`.
--   Receive    basicfwd.cpp, `lcore_main`: `receive` is a turn, `lcore_round` a round of the loop.
--   Assemble   basicfwd.cpp, `consumer_thread`: `round` is a round of whichever loop it is in,
--              `assemble` the part under GODOT, Arrival the rounds over what is in the ring.
--   Align      basicfwd.cpp, `align_thread`: `align` is a round of the outer or the waiting loop.
--   Send       basicfwd.cpp, `send_to_pulsar`: `send` is a round of the loop.
--   Timer      basicfwd.cpp, `timer_thread`.
--   Pipeline   The threads of a channel together: `Step` is a round of any of them, `Reach` any
--              interleaving of rounds. Life is an abstract view of the frames, with the invariant;
--              Journey is the way of one frame through all threads.
--   Accesses   The same threads, one access to the shared state at a time: `consumer_access`,
--              `align_access` and `send_access` are the accesses of `consumer_thread` under GODOT,
--              `align_thread` and `send_to_pulsar`, `Step` is an access of any of them; a round of
--              the first two loops of `consumer_thread`, `warm_up`, is one step. Rounds joins
--              them to the rounds of Pipeline, Races has the orders that end badly under DROP.
--   Route      repeater.cpp, `Route_Table`; Printed is `print_map`, Spec the set of links that the
--              table stands for; Replies is `send_return_msg`, Names has the names of its
--              rings.
--   Repeater   repeater.cpp, `thread1` and `thread2`: a round of each loop. Launch is `main`, Startup
--              how they begin, Buffers where the message buffers are.
--   Setup      basicfwd.cpp, `main`: the channels with their rings and pools. Names has the names.
--   Ports      basicfwd.cpp, `port_init`.
--   Cpus       basicfwd.cpp, `main`: the CPU masks of the threads.
--   Boot       basicfwd.cpp, `main` as a whole; Channels, Devices, Delivers, Orderly and
--              Starts say what it comes to.
--   Pairs      basicfwd.cpp, `check_port_pair_config`, which nothing calls.
--   Dump       basicfwd.cpp, `print_pkt`, which nothing calls.
--   Affinity   thread_affinity.cpp and thread_affinity_c.cpp, two programs that only place threads.
--   Queues     Functions.h, an older align and send thread on queues, which nothing includes.
--   Text       std::to_string.
--   Dpdk       The calls of rte_ring and rte_mempool, a parameter of the model (Dpdk.Api), with what
--              their documentation promises; Dpdk.Listed is an implementation on lists.
--   Common     Shared helpers. Tests has runs on concrete inputs.
--
-- Bounds and fuel. `unsigned int` counters wrap at 2 ^ 32 and the clock at 2 ^ 64. A loop over a
-- constant range recurses on the number of rounds left; the endless loops are one round at a time.
-- `digits` has fuel n + 1 for the number n, and a number has fewer digits than that.
--
-- Assumptions. In Pipeline a round of a thread is one step; in Accesses threads alternate within
-- their rounds, but the copy of a packet's bytes, the writes to a new frame before it is announced,
-- the reading of a frame into a message, and the clean-up of a dropped frame are one step each, and
-- memory is sequentially consistent. A run that is `IsCalm` is one in which packets are valid and the
-- frame pool is not empty when a frame is got; where it is also strict, a packet is met only while
-- its frame still waits for packets, so that none comes after the send thread has released the
-- frame. An object is the number that stands for its address. A ring's capacity is at least the
-- number of frames, as in `main` without VM, where rings have 2097152 places and a pool 16384 frames.
-- A map is the list of its entries in the order in which an iteration meets them. A `Step` of the
-- consumer thread in Pipeline is a round in which the frame pool is not empty; what a round
-- does with an empty pool is in Assemble.Errors. The threads of a channel have the memory of the
-- index and of the message: where rte_zmalloc or rte_malloc gives a null pointer, which the code
-- does not check, or where there is no worker lcore, `boot` ends in `lacks`. That the memory of
-- the frames in a pool is empty at first is an assumption of the theorems about `boot`; the code
-- relies on it, and rte_mempool_create does not promise it. Where the CPU of a thread is meant, it
-- is the mask that pthread_setaffinity_np is given.
--
-- Not modelled: logging and printing, but for `print_pkt` and `print_map`; the Pulsar client, whose
-- sending is compiled out in basicfwd.cpp; the QUEUE and linked-list builds; `dump`, which writes a
-- backtrace; the tests; concurrentqueue.h, a library that only the QUEUE build would use.
pub mod Accesses
pub mod Affinity
pub mod Align
pub mod Assemble
pub mod Boot
pub mod Channel
pub mod Common
pub mod Cpus
pub mod Dpdk
pub mod Dump
pub mod Pairs
pub mod Pipeline
pub mod Ports
pub mod Queues
pub mod Receive
pub mod Repeater
pub mod Route
pub mod Send
pub mod Setup
pub mod Tests
pub mod Text
pub mod Timer
