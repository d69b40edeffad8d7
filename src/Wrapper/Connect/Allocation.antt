-- ===== src/Wrapper/Connect/Allocation.antt =====
-- The heap as far as src/rakpeer.rs uses it: byte vectors that are allocated and freed. A pointer to
-- a vector that was freed, or to one that is empty and so was never allocated, is dangling.
use raknet_sys.Prelude.{ℕ, ◌+◌, Option, none, some, [], ◌∷◌, Bytes, ◌==◌, if◌then◌else◌}
use raknet_sys.Native.Pointer.{Ptr, null, to, dangling}

pub record Heap : Type 0 where
  pub next : ℕ
  pub cell : ℕ → Option Bytes

abbrev pub empty_heap : Heap
empty_heap = record { next = 0; cell = λ v. none }

abbrev pub update : (ℕ → Option Bytes) → ℕ → Option Bytes → ℕ → Option Bytes
update f v b w = if v == w then b else f w

-- A new vector with these bytes.
abbrev pub alloc : Bytes → Heap → ℕ × Heap
alloc [] h = (h.next, record h { next = h.next + 1 })
alloc (b ∷ bs) h =
    (h.next, record { next = h.next + 1; cell = update h.cell h.next (some (b ∷ bs)) })

-- The drop of a vector.
abbrev pub free : ℕ → Heap → Heap
free v h = record h { cell = update h.cell v none }

-- A pointer as C finds it: null, or to the bytes of the vector, if that is still there.
abbrev pub pointer : Heap → Option ℕ → Ptr Bytes
pointer h none = null
pointer h (some v) = elim (h.cell v) [ none ↦ dangling | some bytes ↦ to bytes ]
