-- ===== src/Dpdk/Listed.antt =====
-- Rings and pools as plain lists: an implementation that meets the documented behaviour, so that
-- the model can be run on concrete inputs.
use mathlib.Core.List.Perm
use mathlib.Core.List.{Perm}
use mathlib.Core.Path.{subst}
use dpdk_udp_receiver.Common.{
  ℕ, ◌-◌, ◌≡◌, Bool, true, false, Option, none, some, List, [], ◌∷◌, ◌++◌, arith, length, take,
  drop, take-append-drop, length-take, ltb, leb, if◌then◌else◌,
}
use dpdk_udp_receiver.Dpdk.Api.{Dpdk, Lawful}

pub record ListRing : Type 0 where
  pub items : List ℕ
  pub room : ℕ

abbrev list_enqueue : ℕ → ListRing → Bool × ListRing
list_enqueue p r =
    if ltb (length r.items) r.room
    then (true, record r { items = r.items ++ (p ∷ []) })
    else (false, r)

abbrev list_enqueue_bulk : List ℕ → ListRing → ℕ × ListRing
list_enqueue_bulk ps r =
    if leb (length ps) (r.room - length r.items)
    then (length ps, record r { items = r.items ++ ps })
    else (0, r)

abbrev split_first : List ℕ → Option (ℕ × List ℕ)
split_first [] = none
split_first (p ∷ ps) = some (p, ps)

abbrev list_dequeue : ListRing → Option (ℕ × ListRing)
list_dequeue r = elim r.items [
  | [] ↦ none
  | p ∷ ps ↦ some (p, record { items = ps; room = r.room })
]

abbrev list_get_bulk : ℕ → List ℕ → Option (List ℕ × List ℕ)
list_get_bulk k m = if leb k (length m) then some (take k m, drop k m) else none

abbrev pub listed : Dpdk
listed = record {
  Ring = ListRing;
  Pool = List ℕ;
  objects = λ r. r.items;
  capacity = λ r. r.room;
  free = λ m. m;
  enqueue = list_enqueue;
  enqueue_bulk = list_enqueue_bulk;
  dequeue = list_dequeue;
  get = split_first;
  get_bulk = list_get_bulk;
  put = λ p m. p ∷ m;
}

perm_of_eq : {xs ys : List ℕ} → xs ≡ ys → Perm xs ys
perm_of_eq {xs} e = subst (Perm xs) e (Perm.refl xs)

pub listed-Lawful : Lawful listed
listed-Lawful = record {
  enqueue_room = λ p r h. ground arith;
  enqueue_full = λ p r h. ground arith;
  capacity_enqueue = λ p r. ground arith;
  enqueue_bulk_room = λ ps r h. ground arith;
  enqueue_bulk_full = λ ps r h. ground arith;
  capacity_enqueue_bulk = λ ps r. ground arith;
  dequeue_none = λ r e. ground arith;
  dequeue_some = λ p r s e. ground arith;
  get_none = λ m e. ground arith;
  get_some = λ p m n e. perm_of_eq (ground arith);
  get_bulk_some = λ k ps m n e.
      (ground (arith, length-take k m), perm_of_eq (ground (arith, take-append-drop k m)));
  free_put = λ p m. Perm.refl _;
}
