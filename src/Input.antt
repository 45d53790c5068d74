-- ===== src/Input.antt =====
-- src/fileio.c: a file as the source of the stream, mapped block by block. The file's bytes are a
-- list; `mmap` says at which offsets the call of that name succeeds, and before it that of `munmap`
-- on the block before, whose failure gives the same -1. The memory of a block ends where the file
-- does.
use tsanalyze.Base.{
  ℕ, ◌+◌, ◌-◌, ◌*◌, ◌==◌, ltb, if◌then◌else◌, u32, Bool, Option, none, some, Bytes, take, drop,
  length,
}

-- `struct io_ops`, as far as the reads use it.
pub record FileOps : Type 0 where
  pub block_size : ℕ
  pub total_size : ℕ
  pub offset : ℕ

-- `file_ops` once the file is open.
unfoldable pub fileio_open : Bytes → FileOps
fileio_open file = record { block_size = 2048 * 1024; total_size = length file; offset = 0 }

-- How much of the file is in the block at the offset.
abbrev pub read_size : FileOps → ℕ
read_size ops =
    if ltb (ops.total_size - ops.offset) ops.block_size
    then ops.total_size - ops.offset
    else ops.block_size

-- The block with its length, or `none` for -1.
unfoldable pub fileio_read : (ℕ → Bool) → Bytes → FileOps → Option (Bytes × ℕ × FileOps)
fileio_read mmap file ops =
    if mmap ops.offset
    then some (
      take ops.block_size (drop ops.offset file),
      read_size ops,
      record ops { offset = ops.offset + read_size ops },
    )
    else none

-- Whether `fileio_end` gives 0: an `int` of the bytes to go.
unfoldable pub at_end : FileOps → Bool
at_end ops = u32 (ops.total_size - ops.offset) == 0
