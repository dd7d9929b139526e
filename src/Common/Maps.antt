-- ===== src/Common/Maps.antt =====
-- std::unordered_map as a list of entries, in the order in which an iteration meets them.
use Prim.Native.Nat.{ℕ}
use mathlib.Core.Path.{◌≡◌, refl}
use mathlib.Core.Option.{Option, none, some}
use mathlib.Core.List.{List, [], ◌∷◌}
use native.Mathlib.Omega.{arith}
use dpdk_udp_receiver.Common.Tests.{◌==◌, ==_iff, if◌then◌else◌}

-- The value of an optional, or a default.
abbrev pub value_or {ℓ} : {A : Type ℓ} → Option A → A → A
value_or none a = a
value_or (some b) a = b

module _ {ℓ} {V : Type ℓ} where
  -- `map.find(k)`: none for `map.end()`.
  unfoldable pub lookup : ℕ → List (ℕ × V) → Option V
  lookup k [] = none
  lookup k ((j, v) ∷ m) = if j == k then some v else lookup k m

  -- `map[k]` with `f` done to it: a missing key is entered with the value `new` first.
  unfoldable pub modify : ℕ → V → (V → V) → List (ℕ × V) → List (ℕ × V)
  modify k new f [] = (k, f new) ∷ []
  modify k new f ((j, v) ∷ m) = if j == k then (j, f v) ∷ m else (j, v) ∷ modify k new f m

  pub lookup-modify :
      (k j : ℕ) (new : V) (f : V → V) (m : List (ℕ × V))
      → lookup j (modify k new f m)
        ≡ (if k == j then some (f (value_or (lookup k m) new)) else lookup j m)
  unfolding lookup modify
  lookup-modify k j new f [] = refl
  lookup-modify k j new f ((i, v) ∷ m) =
      ground (arith, ==_iff i k, ==_iff i j, ==_iff k j, lookup-modify k j new f m)
