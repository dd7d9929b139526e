-- ===== src/Common/Memory.antt =====
-- Byte memory and tables as functions of an index, with the block operations of <string.h>.
-- Bounds are not checked here: the code that uses them says where an access is out of range.
use Prim.Native.Nat.{ℕ, ◌+◌, ◌-◌, ◌*◌}
use mathlib.Core.Bool.{◌&&◌}
use mathlib.Core.Path.{◌≡◌, refl, ap, fun_ext}
use mathlib.Core.Logic.{◌≢◌, inl, inr}
use dpdk_udp_receiver.Common.Tests.{ltb, leb, ◌==◌, ==_iff, Bool-cases, if◌then◌else◌}

-- The byte at each offset of an array.
abbrev pub Bytes : Type 0
Bytes = ℕ → ℕ

-- `table[i] = v`.
abbrev pub update {ℓ} : {A : Type ℓ} → (ℕ → A) → ℕ → A → ℕ → A
update f i v j = if i == j then v else f j

-- `memcpy(dst + off, src, len)`.
abbrev pub memcpy : Bytes → ℕ → Bytes → ℕ → Bytes
memcpy dst off src len o = if leb off o && ltb o (off + len) then src (o - off) else dst o

-- `memset(dst + off, v, len)`.
abbrev pub memset {ℓ} : {A : Type ℓ} → (ℕ → A) → ℕ → A → ℕ → ℕ → A
memset dst off v len o = if leb off o && ltb o (off + len) then v else dst o

-- A little-endian number of two bytes, and of four.
abbrev pub le16 : Bytes → ℕ → ℕ
le16 b o = b o + 256 * b (o + 1)

abbrev pub le32 : Bytes → ℕ → ℕ
le32 b o = le16 b o + 65536 * le16 b (o + 2)

-- A slot that was written holds what was written.
pub update_self {ℓ} : {A : Type ℓ} (f : ℕ → A) (i : ℕ) (v : A) → update f i v i ≡ v
update_self f i v = rw ((==_iff i i).1 refl)

-- Another slot is as it was.
pub update_ne {ℓ} : {A : Type ℓ} (f : ℕ → A) (i j : ℕ) (v : A) → i ≢ j → update f i v j ≡ f j
update_ne f i j v ne = elim (Bool-cases (i == j)) [
  | inl e ↦ absurd (ne ((==_iff i j).0 e))
  | inr e ↦ rw e
]

-- Writing what a slot holds changes nothing.
pub update_same {ℓ} : {A : Type ℓ} (f : ℕ → A) (i : ℕ) → update f i (f i) ≡ f
update_same f i =
    fun_ext
      λ j. elim (Bool-cases (i == j)) [ inl e ↦ rw e (ap f ((==_iff i j).0 e)) | inr e ↦ rw e ]
