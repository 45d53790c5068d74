-- ===== src/Base/Blocks.antt =====
-- Blocks of the heap behind pointers. A pointer is null or the number of a block; a block that is
-- freed is gone, and to read, write or free it again is a fault, which is `none`.
use mathlib.Core.Option.{Option, none, some}
use tsanalyze.Base.Tests.{update}
use tsanalyze.Base.Lists.{replicate}
use tsanalyze.Base.Memory.{Bytes, ◌>>=◌, memcpy}
use tsanalyze.Base.Int.{ℤ, size_of}
use Prim.Native.Nat.{ℕ, ◌+◌}

abbrev pub Pointer : Type 0
Pointer = Option ℕ

pub record Heap : Type 0 where
  pub next : ℕ
  pub block : ℕ → Option Bytes

-- `none` for the contents is a failed call, which gives the null pointer.
abbrev pub allocate : Option Bytes → Heap → Pointer × Heap
allocate none mem = (none, mem)
allocate (some b) mem =
    (some mem.next, record { next = mem.next + 1; block = update mem.block mem.next (some b) })

-- A negative size is huge as a `size_t`, and no block has it.
abbrev pub malloc_size : (ℕ → Option Bytes) → ℤ → Option Bytes
malloc_size malloc n = size_of n >>= malloc

-- `calloc(1, n)` gives a block exactly when `malloc(n)` would.
abbrev pub calloc_size : (ℕ → Option Bytes) → ℕ → Option Bytes
calloc_size malloc n = malloc n >>= λ _. some (replicate n 0)

unfoldable pub load : Pointer → Heap → Option Bytes
load none mem = none
load (some p) mem = mem.block p

-- To free the null pointer does nothing.
unfoldable pub free : Pointer → Heap → Option Heap
free none mem = some mem
free (some p) mem = do b ← mem.block p; some (record mem { block = update mem.block p none })

-- `memcpy(p + at, src, n)`
unfoldable pub copy_to : Pointer → ℕ → Bytes → ℕ → Heap → Option Heap
unfolding load
copy_to none at src n mem = none
copy_to (some p) at src n mem = do
  b ← mem.block p
  filled ← memcpy b at src n
  some (record mem { block = update mem.block p (some filled) })
