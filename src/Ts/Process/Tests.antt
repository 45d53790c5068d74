-- ===== src/Ts/Process/Tests.antt =====
-- src/ts.c: the loop of `ts_process` with small blocks, and a `ts_proc` that counts its calls.
use tsanalyze.Base.{
  ℕ, ◌+◌, ◌*◌, ◌/◌, ◌%◌, ◌==◌, true, Option, some, ◌>>=◌, Bytes, length, replicate, take, drop, ◌≡◌,
  refl, arith,
}
use tsanalyze.Ts.Process.{take_packets, process_from}
use tsanalyze.Ts.Process.Packets.{each_packet, take_packets_lem}
use tsanalyze.Ts.Process.Files.{first_loop, process_from-one_block, process_from-two_blocks}

abbrev count_calls : Bytes → ℕ → ℕ → Option ℕ
count_calls ptr n s = some (s + 1)

-- Four packets and 48 bytes, in blocks of 400.
abbrev file : Bytes
file = replicate 800 0x47

process_from-two_blocks_example :
    process_from count_calls 188
      (λ _. true)
      file
      1
      (first_loop count_calls
        (λ _. true)
        file
        (take 400 file)
        400
        (record { block_size = 400; total_size = length file; offset = 400 })
        0
        0)
    ≡ some 2
unfolding take_packets
process_from-two_blocks_example =
    process_from-two_blocks count_calls (λ _. true) file 0 188 400 0 (replicate 24 0x47) 24 0 2
      (omega arith) (omega arith) (omega arith) (omega arith) (omega arith) (omega arith) refl
      (omega arith) refl

-- The same file in one block.
process_from-one_block_example :
    process_from count_calls 188
      (λ offset. offset == 0)
      file
      1
      (first_loop count_calls
        (λ offset. offset == 0)
        file
        (take 1000 file)
        800
        (record { block_size = 1000; total_size = 800; offset = 800 })
        0
        0)
    ≡ each_packet count_calls 188 (800 / 188) file 0
process_from-one_block_example =
    process_from-one_block count_calls (λ offset. offset == 0) file 0 188 1000 0 0 (omega arith)
      (omega arith) (omega arith) (omega arith) refl (omega arith)

take_packets_example : take_packets count_calls 188 800 file 800 0 ≡ (
    each_packet count_calls 188 (800 / 188) file 0 >>= λ s'.
    some (drop (800 / 188 * 188) file, 800 % 188, s'))
take_packets_example = take_packets_lem count_calls 188 file 800 0 (omega arith)
