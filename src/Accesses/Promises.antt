-- ===== src/Accesses/Promises.antt =====
-- No order of the accesses lets a thread reach for a null pointer, or change a frame that the send
-- thread is reading, as long as what the consumer counts on is met.
use dpdk_udp_receiver.Common.{
  goes, ℕ, ◌+◌, Bool, true, times, ◌<◌, ◌≤◌, ◌≡◌, ◌≢◌, inl, inr, refl, ap, arith, false,
  Option-cases, some, ok, ==_iff,
}
use dpdk_udp_receiver.Dpdk.{Dpdk, Lawful}
use dpdk_udp_receiver.Dpdk.Laws.{times-get}
use dpdk_udp_receiver.Channel.{Config, Packet, Channel, pack_num}
use dpdk_udp_receiver.Assemble.{Consumer, up, copy_packet, take_frame}
use dpdk_udp_receiver.Assemble.Copy.{copy_packet-valid}
use dpdk_udp_receiver.Send.{Sender}
use dpdk_udp_receiver.Accesses.{
  Point, away, asks, gets, opens, announces, fills, adds, Taking, Aligning, Sending, idles, builds,
  empties, clears, puts, Threads, add_one, new_frame, ask, get_frame, open_new, announce, access_at,
  consumer_access, send_access, Run,
}
use dpdk_udp_receiver.Accesses.Spread.{
  linked, fresh, leaving, building, copying, held, waiting, IsOrdered, IsOrderly,
}
use dpdk_udp_receiver.Accesses.Takes.{away-ends}
use dpdk_udp_receiver.Accesses.Consumes.{Expects}
use dpdk_udp_receiver.Accesses.Slots.{through-some}
use dpdk_udp_receiver.Accesses.Safety.{IsCalm, Run-IsOrderly}

module _ (cfg : Config) (d : Dpdk) (n : ℕ) where
  get_frame-ok :
      (c : Channel d) (t : Taking) (f : ℕ) (m : d.Pool)
      → d.get c.frame_pool ≡ some (f, m)
      → get_frame cfg d (c, t)
        ≡ ok (
          record c { frame_pool = m },
          record t { place = opens; locals = record (t.locals) { tmp_frame = some f } },
        )
  unfolding get_frame take_frame
  get_frame-ok c t f m got = ground arith

  ask-ends : (s : Channel d × Taking) → (u : Channel d × Taking) × (ask cfg d s ≡ ok u)
  unfolding ask
  ask-ends s = goes (ask cfg d s) (λ e. ground arith) (λ e. ground arith)

  -- The next access of the consumer goes well.
  access_at-ends :
      (l : Point) (c : Channel d) (t : Taking) (a : Aligning) (g : Sending)
      → IsOrdered d true n c l t.packet t.locals a g
      → Expects cfg d true n l t.packet c a
      → (s : Channel d × Taking) × (access_at cfg d l (c, t) ≡ ok s)
  unfolding access_at open_new new_frame announce add_one
  access_at-ends away c t a g h x =
      away-ends cfg d c t.packet t.locals.packet_seq t.locals.tmp_frame t.place t.locals.loop
  access_at-ends asks c t a g h x = ask-ends (c, t)
  access_at-ends gets c t a g h x = elim (Option-cases (d.get c.frame_pool)) [
    | inl empty ↦ absurd (x empty)
    | inr ((f, m), got) ↦ (_, get_frame-ok c t f m got)
  ]
  access_at-ends opens c t a g h x =
      let (f, is, free, small, valid) = h.knows in
      let copies =
        copy_packet-valid t.packet (record (c.frames f) { count = up (c.frames f).count }) valid in
      goes (open_new cfg d (c, t)) (λ e. ground (arith, copies, is))
        (λ e. ground (arith, copies, is))
  access_at-ends announces c t a g h x =
      let (f, is, has) = h.knows in
      goes (announce cfg d (c, t)) (λ e. ground (arith, has)) (λ e. ground (arith, has))
  access_at-ends fills c t a g h x =
      let (f, has, waits, short) = h.knows.1 refl in
      let done =
        through-some d c t.packet.frame_seq f (copy_packet t.packet) _ has
          (copy_packet-valid t.packet (c.frames f) h.knows.0) in
      goes (access_at cfg d fills (c, t)) (λ e. ground (arith, done)) (λ e. ground (arith, done))
  access_at-ends adds c t a g h x =
      let (f, has, waits, short) = h.knows.1 refl in
      let done = through-some d c t.packet.frame_seq f add_one _ has refl in
      goes (access_at cfg d adds (c, t)) (λ e. ground (arith, done)) (λ e. ground (arith, done))

  -- So does that of the send thread.
  send_access-ends :
      (strict : Bool) (g : Sending) (c : Channel d) (l : Point) (p : Packet) (k : Consumer)
      (a : Aligning) (s : Sender)
      → IsOrdered d strict n c l p k a g
      → (t : Channel d × Sending × Sender) × (send_access cfg d (c, g, s) ≡ ok t)
  unfolding send_access
  send_access-ends strict idles c l p k a s h =
      goes (send_access cfg d (c, idles, s)) (λ e. ground arith) (λ e. ground arith)
  send_access-ends strict (builds f) c l p k a s h = (_, refl)
  send_access-ends strict (empties f) c l p k a s h = (_, refl)
  send_access-ends strict (clears f) c l p k a s h =
      let small = (h.tidy.found f (ground (arith, h.tidy.once f))).1.small in
      goes (send_access cfg d (c, clears f, s)) (λ e. ground arith) (λ e. ground arith)
  send_access-ends strict (puts f) c l p k a s h = (_, refl)

  module _ (c : Channel d) (p : Packet) (k : Consumer) (a : Aligning) (g : Sending) (f : ℕ) where
    once_held : held f (some f) ≡ 1
    once_held = ground (arith, ==_iff f f)

    -- The frame that the consumer writes to is one that it just got, or one that still waits, and
    -- so not the one that the send thread reads.
    copying_apart :
        (l : Point)
        → IsOrdered d true n c l p k a g
        → building g ≡ some f
        → copying l k.tmp_frame (c.index p.frame_seq) ≢ some f
    copying_apart away h is into = cc
    copying_apart asks h is into = cc
    copying_apart gets h is into = cc
    copying_apart opens h is into =
        omega (arith, h.tidy.once f, ap (held f) is, ap (held f) into, once_held)
    copying_apart announces h is into = cc
    copying_apart fills h is into =
        let (o, same, waits, short) = h.knows.1 refl in
        let there : 0 < waiting d c.ring2_3 a f = ground arith in
        omega (arith, h.tidy.once f, ap (held f) is, there, once_held)
    copying_apart adds h is into =
        let (o, same, waits, short) = h.knows.1 refl in
        let there : 0 < waiting d c.ring2_3 a f = ground arith in
        omega (arith, h.tidy.once f, ap (held f) is, there, once_held)

    -- The frame that the send thread reads is full, and no copy into it is under way.
    building_full :
        (l : Point)
        → IsOrdered d true n c l p k a g
        → building g ≡ some f
        → (pack_num ≤ (c.frames f).count) × (copying l k.tmp_frame (c.index p.frame_seq) ≢ some f)
    building_full l h is =
        (h.tidy.filled refl f (omega (arith, ap (held f) is, once_held)), copying_apart l h is)

module _ (cfg : Config) (d : Dpdk) (laws : Lawful d) (n : ℕ) {x y : Threads d}
    (never : cfg.drop ≡ false) (h : IsOrderly d true n x)
    (r : Run cfg d (IsCalm cfg d laws true n) x y) where
  -- Without DROP, in every state of a run in which the consumer is met by what it counts on, that
  -- state included: the next access of the consumer and that of the send thread neither fault nor
  -- panic.
  pub Run-goes_well :
      IsCalm cfg d laws true n y
      → ((s : Channel d × Taking) × (consumer_access cfg d (y.chan, y.taking) ≡ ok s))
        × ((s : Channel d × Sending × Sender) × (send_access cfg d (y.chan, y.sending, y.sender)
              ≡ ok s))
  unfolding consumer_access
  Run-goes_well calm =
      let now = Run-IsOrderly cfg d laws true n (λ q. never) h r in
      (
        access_at-ends cfg d n y.taking.place y.chan y.taking y.aligning y.sending now calm,
        send_access-ends cfg d n true y.sending y.chan y.taking.place y.taking.packet
            y.taking.locals y.aligning y.sender now,
      )

  -- Without DROP, in every state reached by a run in which the consumer is met by what it counts
  -- on: a frame that the send thread reads or is about to empty has all of its packets, and the
  -- next access of the consumer writes neither a first nor a later packet into it.
  pub Run-full :
      (f : ℕ)
      → building y.sending ≡ some f
      → (pack_num ≤ (y.chan.frames f).count)
        × (copying y.taking.place y.taking.locals.tmp_frame (y.chan.index y.taking.packet.frame_seq)
            ≢ some f)
  Run-full f is =
      building_full cfg d n y.chan y.taking.packet y.taking.locals y.aligning y.sending f
        y.taking.place (Run-IsOrderly cfg d laws true n (λ q. never) h r) is

-- Under DROP too, as long as each packet that is met is valid and the pool is not empty when a frame
-- is got: in every state that is reached, with an empty pool or not, the next access of the send
-- thread neither faults nor panics.
pub Run-sends :
    (cfg : Config) (d : Dpdk) (laws : Lawful d) (strict : Bool) (n : ℕ) {x y : Threads d}
    → (strict ≡ true → cfg.drop ≡ false)
    → IsOrderly d strict n x
    → Run cfg d (IsCalm cfg d laws strict n) x y
    → (s : Channel d × Sending × Sender) × (send_access cfg d (y.chan, y.sending, y.sender) ≡ ok s)
Run-sends cfg d laws strict n {y = y} never h r =
    send_access-ends cfg d n strict y.sending y.chan y.taking.place y.taking.packet y.taking.locals
      y.aligning y.sender (Run-IsOrderly cfg d laws strict n never h r)

-- Under DROP too, as long as each packet that is met is valid and the pool is not empty when a frame
-- is got: in every state that is reached, a frame that the pool gives is in the pool once, and is in
-- no ring, in the hand of no thread and in no slot of the index.
pub Run-owned :
    (cfg : Config) (d : Dpdk) (laws : Lawful d) (n : ℕ) {x y : Threads d} (f : ℕ) (m : d.Pool)
    → IsOrderly d false n x
    → Run cfg d (IsCalm cfg d laws false n) x y
    → d.get y.chan.frame_pool ≡ some (f, m)
    → (times f (d.free y.chan.frame_pool) ≡ 1)
      × (held f (fresh y.taking.place y.taking.locals.tmp_frame) + held f (leaving y.sending) ≡ 0)
      × (linked d y.chan.frame_pool y.chan.ring2_3 y.chan.ring3_4 y.taking.place
            y.taking.locals.tmp_frame y.aligning y.sending f
          ≡ 0)
      × ((s : ℕ) → y.chan.index s ≢ some f)
Run-owned cfg d laws n {y = y} f m h r got =
    let now = Run-IsOrderly cfg d laws false n (λ q. absurd (cc)) h r in
    let freed : 0 < times f (d.free y.chan.frame_pool) =
      ground (arith, times-get d laws f f y.chan.frame_pool m got) in
    (
      omega (arith, now.tidy.once f, freed),
      omega (arith, now.tidy.once f, freed),
      omega (arith, now.tidy.once f, freed),
      λ s at. absurd (omega (arith, now.tidy.once f, freed, now.tidy.listed s f at)),
    )
