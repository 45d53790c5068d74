-- ===== src/Ts/Process/Whole.antt =====
-- src/ts.c: `ts_process` on a whole file, of one block of the input and of two.
use tsanalyze.Base.{
  ℕ, suc, ◌+◌, ◌-◌, ◌*◌, ◌/◌, ◌≤◌, Bool, true, false, Option, some, Bytes, take, drop, length, ◌≡◌,
  refl, ap, ◌∙◌, arith,
}
use tsanalyze.Input.{FileOps}
use tsanalyze.Ts.Probe.{PacketFormat, mpegts_probe, analyze, Analysis}
use tsanalyze.Ts.Process.{packet_length, take_packets, process_from, process_read, ts_process}
use tsanalyze.Ts.Process.Packets.{each_packet}
use tsanalyze.Ts.Process.Reads.{block_bytes, packet_length-bounds, read_first, read_all, read_whole}
use tsanalyze.Ts.Process.Files.{first_loop, process_from-one_block, process_from-two_blocks}

module _ {S : Type 0} (proc : Bytes → ℕ → S → Option S) (mmap : ℕ → Bool) (file : Bytes) where
  process_read_lem :
      (fuel size : ℕ) (block : Bytes) (ops' : FileOps) (s s' : S) (format : PacketFormat)
      (a : Analysis)
      → mpegts_probe block size ≡ some (some format)
      → analyze block (packet_length format) (packet_length format * 2) 0 ≡ some a
      → process_from proc
          (packet_length format)
          mmap
          file
          fuel
          (first_loop proc mmap file block size ops' a.index s)
        ≡ some s'
      → process_read proc mmap file fuel s (some (block, size, ops')) ≡ some (some s')
  process_read_lem fuel size block ops' s s' format a probed analyzed ran =
      rw (probed, analyzed, ran) refl

  -- Let the file fit one block of 2 MiB, and let the blocks be probed and its start be found. If the
  -- next block cannot be mapped, `ts_process` gives to `ts_proc` the packets of the whole file from
  -- its start, one behind the other, and returns within one round.
  pub ts_process-one_block :
      (fuel : ℕ) (s s' : S) (format : PacketFormat) (a : Analysis)
      → length file ≤ block_bytes
      → mmap 0 ≡ true
      → mmap (length file) ≡ false
      → mpegts_probe (take block_bytes file) (length file) ≡ some (some format)
      → analyze (take block_bytes file) (packet_length format) (packet_length format * 2) 0 ≡ some a
      → a.index ≤ length file
      → each_packet proc
          (packet_length format)
          ((length file - a.index) / packet_length format)
          (drop a.index file)
          s
        ≡ some s'
      → ts_process proc mmap file (suc fuel) s ≡ some (some s')
  unfolding ts_process
  ts_process-one_block fuel s s' format a small mapped unmapped probed analyzed inside taken =
      let total = length file in
      let (positive, bound) = packet_length-bounds format in
      ap (λ o. process_read proc mmap file (suc fuel) s o)
        (read_first mmap file total mapped (read_all file small))
      ∙ process_read_lem (suc fuel) total (take block_bytes file) _ s s' format a probed analyzed (
          process_from-one_block proc mmap file fuel (packet_length format) block_bytes a.index s
            positive bound small (omega arith) unmapped inside
          ∙ taken)

  -- Let the file be longer than a block of 2 MiB and at most two long, with both blocks mapped and
  -- room for a packet in the second. `ts_process` gives to `ts_proc` the packets of the first block
  -- alone and returns: no packet of the second is taken, nor the one that the two share, since the
  -- loop ends as soon as the last block is read.
  pub ts_process-two_blocks :
      (fuel : ℕ) (ptr' : Bytes) (len' : ℕ) (s s' : S) (format : PacketFormat) (a : Analysis)
      → block_bytes + 204 ≤ length file
      → length file ≤ 2 * block_bytes
      → mmap 0 ≡ true
      → mmap block_bytes ≡ true
      → mpegts_probe (take block_bytes file) block_bytes ≡ some (some format)
      → analyze (take block_bytes file) (packet_length format) (packet_length format * 2) 0 ≡ some a
      → a.index ≤ block_bytes
      → take_packets proc
          (packet_length format)
          (block_bytes - a.index)
          (drop a.index (take block_bytes file))
          (block_bytes - a.index)
          s
        ≡ some (ptr', len', s')
      → ts_process proc mmap file (suc fuel) s ≡ some (some s')
  unfolding ts_process
  ts_process-two_blocks fuel ptr' len' s s' format a long short mapped mapped' probed analyzed
        inside taken =
      let (positive, bound) = packet_length-bounds format in
      ap (λ o. process_read proc mmap file (suc fuel) s o)
        (read_first mmap file block_bytes mapped (read_whole file (omega arith)))
      ∙ process_read_lem (suc fuel) block_bytes (take block_bytes file) _ s s' format a probed
          analyzed
          (process_from-two_blocks proc mmap file fuel (packet_length format) block_bytes a.index
            ptr' len' s s' positive bound (omega (arith, bound)) short (omega (arith, bound))
            (omega arith) mapped' inside taken)
