-- ===== src/Route/Subscribers.antt =====
-- The table of DHSMs by channel, which `generate_map2` makes, against the list of a channel's
-- subscribers.
use dpdk_udp_receiver.Common.{
  ℕ, zero, suc, ◌+◌, ◌≡◌, refl, Bool, false, ◌&&◌, ◌||◌, none, some, List, [], ◌∷◌, ◌++◌, ltb, leb,
  ==_iff, if◌then◌else◌, arith, lookup, modify, value_or, lookup-modify,
}
use mathlib.Core.List.{append_assoc, append-nil}
use dpdk_udp_receiver.Route.{
  Bits, no_bits, RouteTable, sum_bits, open_channels, add_dhsm, add_dhsms, generate_map2,
}

-- The DHSMs that want a channel, in the order of the table.
unfoldable pub subscribers : ℕ → List (ℕ × Bits) → List ℕ
subscribers channel [] = []
subscribers channel ((dhsm, bits) ∷ m) =
    if bits channel then dhsm ∷ subscribers channel m else subscribers channel m

-- Some DHSM wants the channel.
unfoldable pub is_wanted : ℕ → List (ℕ × Bits) → Bool
is_wanted channel [] = false
is_wanted channel ((dhsm, bits) ∷ m) = bits channel || is_wanted channel m

sum_bits_lem :
    (channel : ℕ) (m : List (ℕ × Bits)) (sum : Bits)
    → sum_bits m sum channel ≡ sum channel || is_wanted channel m
unfolding sum_bits is_wanted
sum_bits_lem channel [] sum = ground arith
sum_bits_lem channel ((dhsm, bits) ∷ m) sum =
    ground (arith, sum_bits_lem channel m (λ i. sum i || bits i))

-- A place of the loop's range.
unfoldable is_in : ℕ → ℕ → ℕ → Bool
is_in n i channel = leb i channel && ltb channel (i + n)

lookup-open_channels :
    (n i channel : ℕ) (sum : Bits) (m : List (ℕ × List ℕ))
    → lookup channel (open_channels n i sum m)
      ≡ (if is_in n i channel && sum channel then some [] else lookup channel m)
unfolding open_channels is_in
lookup-open_channels zero i channel sum m = ground arith
lookup-open_channels (suc n) i channel sum m = ground (
  arith,
  ==_iff i channel,
  lookup-modify i channel [] (λ _. []) m,
  lookup-open_channels n (i + 1) channel sum (if sum i then modify i [] (λ _. []) m else m),
)

lookup-add_dhsm :
    (n i channel dhsm : ℕ) (bits : Bits) (m : List (ℕ × List ℕ))
    → lookup channel (add_dhsm n i dhsm bits m) ≡ (
        if is_in n i channel && bits channel
        then some (value_or (lookup channel m) [] ++ (dhsm ∷ []))
        else lookup channel m)
unfolding add_dhsm is_in
lookup-add_dhsm zero i channel dhsm bits m = ground arith
lookup-add_dhsm (suc n) i channel dhsm bits m = ground (
  arith,
  ==_iff i channel,
  lookup-modify i channel [] (λ v. v ++ (dhsm ∷ [])) m,
  lookup-add_dhsm n (i + 1) channel dhsm bits
      (if bits i then modify i [] (λ v. v ++ (dhsm ∷ [])) m else m),
)

-- A channel that no DHSM wants has no subscribers.
pub subscribers-unwanted :
    (channel : ℕ) (m : List (ℕ × Bits)) → is_wanted channel m ≡ false → subscribers channel m ≡ []
unfolding is_wanted subscribers
subscribers-unwanted channel [] e = refl
subscribers-unwanted channel ((dhsm, bits) ∷ m) e = ground (arith, subscribers-unwanted channel m)

lookup-add_dhsms :
    (channel : ℕ) (items : List (ℕ × Bits)) (m : List (ℕ × List ℕ))
    → lookup channel (add_dhsms items m) ≡ (
        if ltb channel 16 && is_wanted channel items
        then some (value_or (lookup channel m) [] ++ subscribers channel items)
        else lookup channel m)
unfolding add_dhsms is_wanted subscribers is_in
lookup-add_dhsms channel [] m = ground arith
lookup-add_dhsms channel ((dhsm, bits) ∷ items) m = ground (
  arith,
  lookup-add_dhsm 16 0 channel dhsm bits m,
  subscribers-unwanted channel items,
  append-nil (value_or (lookup channel m) [] ++ (dhsm ∷ [])),
  append-nil (value_or (lookup channel m) []),
  append_assoc (value_or (lookup channel m) []) (dhsm ∷ []) (subscribers channel items),
  lookup-add_dhsms channel items (add_dhsm 16 0 dhsm bits m),
)

-- The table that `generate_map2` makes has an entry for exactly the channels below 16 that some
-- DHSM wants, and it is the list of the DHSMs that want it, in the order of the table it was made
-- from.
pub generate_map2-subscribers :
    (t : RouteTable) (channel : ℕ)
    → lookup channel (generate_map2 t).channel_dhsm_map ≡ (
        if ltb channel 16 && is_wanted channel t.dhsm_channel_map
        then some (subscribers channel t.dhsm_channel_map)
        else none)
unfolding generate_map2 is_in lookup
generate_map2-subscribers t channel = ground (
  arith,
  lookup-add_dhsms channel t.dhsm_channel_map
      (open_channels 16 0 (sum_bits t.dhsm_channel_map no_bits) []),
  lookup-open_channels 16 0 channel (sum_bits t.dhsm_channel_map no_bits) [],
  sum_bits_lem channel t.dhsm_channel_map no_bits,
)
