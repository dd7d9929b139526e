-- ===== src/Setup/Names.antt =====
-- The names under which `main` of basicfwd.cpp makes rings and pools.
use mathlib.Core.List.{append_cancel_left}
use dpdk_udp_receiver.Common.{ℕ, ◌≡◌, ◌≢◌, refl, sym, subst, arith, List, ◌∷◌, ◌++◌}
use dpdk_udp_receiver.Text.{to_string, codes}
use dpdk_udp_receiver.Text.Numerals.{to_string-IsPlain, to_string-injective, IsPlain}

-- Which of the rings of a channel: `ring1_2`, `ring2_3` or `ring3_4`.
pub data Place : Type 0 where
  first second third : Place

-- What stands before the number of the channel.
abbrev pub prefix : Place → List ℕ
prefix first = codes "PRI_2_SEC"
prefix second = codes "PRI_2_SEC_1"
prefix third = codes "PRI_2_SEC_2"

unfoldable pub ring_name : Place → ℕ → List ℕ
ring_name place i = prefix place ++ to_string i

unfoldable pub msg_pool_name : ℕ → List ℕ
msg_pool_name i = codes "MSG_POOL" ++ to_string i

unfoldable pub frame_pool_name : ℕ → List ℕ
frame_pool_name i = codes "UDP_FRAME_MEM_POOL_" ++ to_string i

-- A numeral has no underscore to begin with.
to_string-head : (n : ℕ) (cs : List ℕ) → to_string n ≢ 95 ∷ cs
unfolding IsPlain
to_string-head n cs e = (subst IsPlain e (to_string-IsPlain n)).0 refl

-- Two rings of the program have the same name only if they are the same ring of the same channel.
pub ring_name-injective :
    (p q : Place) (i j : ℕ) → ring_name p i ≡ ring_name q j → (p ≡ q) × (i ≡ j)
unfolding ring_name
ring_name-injective first first i j e =
    (refl, to_string-injective i j (append_cancel_left (prefix first) _ _ e))
ring_name-injective second second i j e =
    (refl, to_string-injective i j (append_cancel_left (prefix second) _ _ e))
ring_name-injective third third i j e =
    (refl, to_string-injective i j (append_cancel_left (prefix third) _ _ e))
ring_name-injective first second i j e =
    absurd (to_string-head i _ (append_cancel_left (prefix first) _ _ e))
ring_name-injective first third i j e =
    absurd (to_string-head i _ (append_cancel_left (prefix first) _ _ e))
ring_name-injective second first i j e =
    absurd (to_string-head j _ (append_cancel_left (prefix first) _ _ (sym e)))
ring_name-injective third first i j e =
    absurd (to_string-head j _ (append_cancel_left (prefix first) _ _ (sym e)))
ring_name-injective second third i j e =
    absurd (ground (arith, append_cancel_left (codes "PRI_2_SEC_") _ _ e))
ring_name-injective third second i j e =
    absurd (ground (arith, append_cancel_left (codes "PRI_2_SEC_") _ _ e))
