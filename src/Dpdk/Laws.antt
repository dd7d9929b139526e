-- ===== src/Dpdk/Laws.antt =====
-- Consequences of the documented behaviour, in the form that the proofs use.
use dpdk_udp_receiver.Common.{
  ℕ, ◌+◌, ◌<◌, ◌≡◌, ap, arith, some, List, [], ◌∷◌, Option-cases, inl, inr, length, times,
  times-perm, times-append, length-append, length-perm,
}
use dpdk_udp_receiver.Dpdk.Api.{Dpdk, Lawful}

module _ (d : Dpdk) (laws : Lawful d) where
  -- A ring gives its oldest object.
  pub dequeue-cons :
      (x : ℕ) (os : List ℕ) (r : d.Ring)
      → d.objects r ≡ x ∷ os
      → (rest : d.Ring) × (d.dequeue r ≡ some (x, rest)) × (d.objects rest ≡ os)
  dequeue-cons x os r e = elim (Option-cases (d.dequeue r)) [
    | inl empty ↦ cc (laws.dequeue_none r empty)
    | inr ((y, rest), got) ↦
        let shown : d.objects r ≡ y ∷ d.objects rest = (laws.dequeue_some y r rest got).0 in
        (rest, ground (arith, got), ground arith)
  ]

  -- A ring with room takes an object.
  pub times-enqueue :
      (o x : ℕ) (r : d.Ring)
      → length (d.objects r) < d.capacity r
      → times o (d.objects (d.enqueue x r).1) ≡ times o (x ∷ []) + times o (d.objects r)
  times-enqueue o x r room =
      omega
        (arith, ap (times o) (laws.enqueue_room x r room).1, times-append o (d.objects r) (x ∷ []))

  pub length-enqueue :
      (x : ℕ) (r : d.Ring)
      → length (d.objects r) < d.capacity r
      → length (d.objects (d.enqueue x r).1) ≡ length (d.objects r) + 1
  length-enqueue x r room =
      omega (
        arith,
        ap (length {0}) (laws.enqueue_room x r room).1,
        length-append (d.objects r) (x ∷ []),
      )

  pub times-dequeue :
      (o x : ℕ) (r s : d.Ring)
      → d.dequeue r ≡ some (x, s)
      → times o (d.objects r) ≡ times o (x ∷ []) + times o (d.objects s)
  times-dequeue o x r s e = omega (arith, ap (times o) (laws.dequeue_some x r s e).0)

  pub length-dequeue :
      (x : ℕ) (r s : d.Ring)
      → d.dequeue r ≡ some (x, s)
      → length (d.objects r) ≡ length (d.objects s) + 1
  length-dequeue x r s e = omega (arith, ap (length {0}) (laws.dequeue_some x r s e).0)

  pub times-get :
      (o x : ℕ) (m n : d.Pool)
      → d.get m ≡ some (x, n)
      → times o (d.free m) ≡ times o (x ∷ []) + times o (d.free n)
  times-get o x m n e = omega (arith, times-perm o (laws.get_some x m n e))

  pub length-get :
      (x : ℕ) (m n : d.Pool) → d.get m ≡ some (x, n) → length (d.free m) ≡ length (d.free n) + 1
  length-get x m n e = omega (arith, length-perm (laws.get_some x m n e))

  pub times-put :
      (o x : ℕ) (m : d.Pool) → times o (d.free (d.put x m)) ≡ times o (x ∷ []) + times o (d.free m)
  times-put o x m = omega (arith, times-perm o (laws.free_put x m))

  pub length-put : (x : ℕ) (m : d.Pool) → length (d.free (d.put x m)) ≡ length (d.free m) + 1
  length-put x m = omega (arith, length-perm (laws.free_put x m))
