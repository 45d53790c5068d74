-- ===== src/Ts/Process/Reads.antt =====
-- src/fileio.c: the reads of a file of one block and of two.
use tsanalyze.Base.{
  ℕ, ◌+◌, ◌-◌, ◌*◌, ◌≤◌, ◌<◌, Bool, true, false, none, some, Bytes, take, drop, length, ◌≡◌, refl,
  ap, arith,
}
use tsanalyze.Input.{FileOps, fileio_open, fileio_read, at_end, read_size}
use tsanalyze.Ts.Probe.{PacketFormat, ts, dvhs, fec}
use tsanalyze.Ts.Process.{packet_length}

abbrev pub block_bytes : ℕ
block_bytes = 2048 * 1024

pub packet_length-bounds :
    (format : PacketFormat) → (0 < packet_length format) × (packet_length format ≤ 204)
packet_length-bounds ts = (omega arith, omega arith)
packet_length-bounds dvhs = (omega arith, omega arith)
packet_length-bounds fec = (omega arith, omega arith)

pub read_first :
    (mmap : ℕ → Bool) (file : Bytes) (size : ℕ)
    → mmap 0 ≡ true
    → read_size (fileio_open file) ≡ size
    → fileio_read mmap file (fileio_open file)
      ≡ some (
        take block_bytes file,
        size,
        record { block_size = block_bytes; total_size = length file; offset = size },
      )
unfolding fileio_read fileio_open
read_first mmap file size mapped sized =
    rw (mapped, sized)
      (ap
        (λ k. some (
          take block_bytes file,
          size,
          record { block_size = block_bytes; total_size = length file; offset = k },
        ))
        (omega arith))

pub read_all :
    (file : Bytes) → length file ≤ block_bytes → read_size (fileio_open file) ≡ length file
unfolding fileio_open
read_all file small = ground arith

pub read_whole :
    (file : Bytes) → block_bytes ≤ length file → read_size (fileio_open file) ≡ block_bytes
unfolding fileio_open
read_whole file long = ground arith

pub read_fails :
    (mmap : ℕ → Bool) (file : Bytes) (ops : FileOps)
    → mmap ops.offset ≡ false
    → fileio_read mmap file ops ≡ none
unfolding fileio_read
read_fails mmap file ops unmapped = rw unmapped refl

pub read_second :
    (mmap : ℕ → Bool) (file : Bytes) (bs : ℕ)
    → mmap bs ≡ true
    → bs ≤ length file
    → length file ≤ 2 * bs
    → fileio_read mmap file (record { block_size = bs; total_size = length file; offset = bs })
      ≡ some (
        take bs (drop bs file),
        length file - bs,
        record { block_size = bs; total_size = length file; offset = length file },
      )
unfolding fileio_read
read_second mmap file bs mapped long short =
    let ops : FileOps = record { block_size = bs; total_size = length file; offset = bs } in
    let sized : read_size ops ≡ length file - bs = ground arith in
    let reached : bs + (length file - bs) ≡ length file = omega arith in
    rw (mapped, sized, reached) refl

pub at_end-total :
    (bs total : ℕ) → at_end (record { block_size = bs; total_size = total; offset = total }) ≡ true
unfolding at_end
at_end-total bs total = let nothing_left : total - total ≡ 0 = omega arith in rw nothing_left refl
