-- ===== src/Dpdk/Api.antt =====
-- The calls of rte_ring.h and rte_mempool.h that the program makes (`Dpdk`), and what their
-- documentation promises (`Lawful`). An object is the number that stands for its address.
use dpdk_udp_receiver.Common.{
  ℕ, ◌-◌, ◌≤◌, ◌<◌, ◌≡◌, Bool, true, false, Option, none, some, List, [], ◌∷◌, ◌++◌, length,
}
use mathlib.Core.List.{Perm}

pub record Dpdk : Type 1 where
  pub Ring : Type 0
  pub Pool : Type 0
  -- The objects in a ring, oldest first, how many it can hold, and the free objects of a pool.
  pub objects : Ring → List ℕ
  pub capacity : Ring → ℕ
  pub free : Pool → List ℕ
  -- rte_ring_enqueue: true for the return value 0, false for -ENOBUFS.
  pub enqueue : ℕ → Ring → Bool × Ring
  -- rte_ring_enqueue_bulk: the return value is the number of objects enqueued.
  pub enqueue_bulk : List ℕ → Ring → ℕ × Ring
  -- rte_ring_dequeue: none for -ENOENT.
  pub dequeue : Ring → Option (ℕ × Ring)
  -- rte_mempool_get and rte_mempool_get_bulk: none for -ENOENT.
  pub get : Pool → Option (ℕ × Pool)
  pub get_bulk : ℕ → Pool → Option (List ℕ × Pool)
  -- rte_mempool_put.
  pub put : ℕ → Pool → Pool

pub record Lawful (d : Dpdk) : Type 0 where
  pub enqueue_room :
      (p : ℕ) (r : d.Ring)
      → length (d.objects r) < d.capacity r
      → ((d.enqueue p r).0 ≡ true) × (d.objects (d.enqueue p r).1 ≡ d.objects r ++ (p ∷ []))
  pub enqueue_full :
      (p : ℕ) (r : d.Ring)
      → d.capacity r ≤ length (d.objects r)
      → ((d.enqueue p r).0 ≡ false) × (d.objects (d.enqueue p r).1 ≡ d.objects r)
  pub capacity_enqueue : (p : ℕ) (r : d.Ring) → d.capacity (d.enqueue p r).1 ≡ d.capacity r
  pub enqueue_bulk_room :
      (ps : List ℕ) (r : d.Ring)
      → length ps ≤ d.capacity r - length (d.objects r)
      → ((d.enqueue_bulk ps r).0 ≡ length ps)
        × (d.objects (d.enqueue_bulk ps r).1 ≡ d.objects r ++ ps)
  pub enqueue_bulk_full :
      (ps : List ℕ) (r : d.Ring)
      → d.capacity r - length (d.objects r) < length ps
      → ((d.enqueue_bulk ps r).0 ≡ 0) × (d.objects (d.enqueue_bulk ps r).1 ≡ d.objects r)
  pub capacity_enqueue_bulk :
      (ps : List ℕ) (r : d.Ring) → d.capacity (d.enqueue_bulk ps r).1 ≡ d.capacity r
  pub dequeue_none : (r : d.Ring) → d.dequeue r ≡ none → d.objects r ≡ []
  pub dequeue_some :
      (p : ℕ) (r s : d.Ring)
      → d.dequeue r ≡ some (p, s)
      → (d.objects r ≡ p ∷ d.objects s) × (d.capacity s ≡ d.capacity r)
  pub get_none : (m : d.Pool) → d.get m ≡ none → d.free m ≡ []
  pub get_some : (p : ℕ) (m n : d.Pool) → d.get m ≡ some (p, n) → Perm (d.free m) (p ∷ d.free n)
  pub get_bulk_some :
      (k : ℕ) (ps : List ℕ) (m n : d.Pool)
      → d.get_bulk k m ≡ some (ps, n)
      → (length ps ≡ k) × Perm (d.free m) (ps ++ d.free n)
  pub free_put : (p : ℕ) (m : d.Pool) → Perm (d.free (d.put p m)) (p ∷ d.free m)
