-- ===== src/Ts/Process/Files.antt =====
-- src/ts.c: the loop of `ts_process` on a file of one block and of two.
use tsanalyze.Base.{
  ℕ, zero, suc, ◌+◌, ◌-◌, ◌*◌, ◌/◌, ◌%◌, ◌==◌, ◌^◌, [], ◌∷◌, Option-cases, inl, inr, sym, ◌≤◌, ◌<◌,
  Bool, true, false, Option, none, some, ◌>>=◌, Bytes, take, drop, length, length-take, length-drop,
  length-replicate, replicate, ◌≡◌, refl, ap, ◌∙◌, arith,
}
use tsanalyze.Input.{FileOps, fileio_read, at_end}
use tsanalyze.Ts.Probe.{ts_fec_packet_size}
use tsanalyze.Ts.Process.{
  Loop, step_len, take_packets, next_block, after_read, finish_packet, use_block, process_from,
}
use tsanalyze.Ts.Process.Blocks.{refill_lem, take_packets-left, last_round}
use tsanalyze.Ts.Process.Packets.{each_packet, take_packets_lem}
use tsanalyze.Ts.Process.Reads.{read_fails, read_second, at_end-total}

take_all : (n : ℕ) (xs : Bytes) → length xs ≤ n → take n xs ≡ xs
take_all zero [] small = refl
take_all (suc n) [] small = refl
take_all zero (x ∷ xs) small = absurd (omega arith)
take_all (suc n) (x ∷ xs) small = ap (λ l. x ∷ l) (take_all n xs (omega arith))

module _ {S : Type 0} (proc : Bytes → ℕ → S → Option S) (mmap : ℕ → Bool) (file : Bytes) where
  -- The variables when the loop starts.
  abbrev pub first_loop : Bytes → ℕ → FileOps → ℕ → S → Loop S
  first_loop block size ops' index s = record {
    ptr = drop index block;
    len = step_len size index;
    pkt_con = replicate ts_fec_packet_size 0;
    pkt_con_len = 0;
    ops = ops';
    state = s;
  }

  -- What the read after the first block does, whatever is left of the block.
  abbrev EndsAfter : FileOps → ℕ → Type 0
  EndsAfter ops' n =
      (l : Loop S)
      → l.ops ≡ ops'
      → l.pkt_con_len < n
      → length l.pkt_con ≡ 204
      → (l' : Loop S) × (next_block proc n mmap file l ≡ some (true, l')) × (l'.state ≡ l.state)

  ends-no_block : (ops' : FileOps) (n : ℕ) → fileio_read mmap file ops' ≡ none → EndsAfter ops' n
  unfolding next_block
  ends-no_block ops' n refused l same small room = (
    l,
    ap (λ o. after_read proc n mmap file o l) (ap (λ o. fileio_read mmap file o) same ∙ refused),
    refl,
  )

  ends-last_block :
      (ops' ops'' : FileOps) (n size : ℕ) (block : Bytes)
      → fileio_read mmap file ops' ≡ some (block, size, ops'')
      → at_end ops'' ≡ true
      → n ≤ 204
      → n ≤ length block
      → EndsAfter ops' n
  unfolding next_block
  ends-last_block ops' ops'' n size block given last bound readable l same small room =
      let (l', refilled, state', ops₂) =
        refill_lem proc n (record l { ptr = block; len = size; ops = ops'' }) small
          (omega (arith, room)) (omega (arith, room)) readable in
      (
        l',
        ap (λ o. after_read proc n mmap file o l) (ap (λ o. fileio_read mmap file o) same ∙ given)
            ∙ ap (λ o. o >>= λ k. some (at_end k.ops, k)) refilled
            ∙ ap (λ b. some (b, l')) (ap at_end ops₂ ∙ last),
        state',
      )

  block_taken :
      (fuel n size index : ℕ) (block ptr' : Bytes) (len' : ℕ) (ops' : FileOps) (s s' : S)
      → 0 < n
      → n ≤ 204
      → size ≤ length block
      → size < 2 ^ 64
      → index ≤ size
      → take_packets proc n (size - index) (drop index block) (size - index) s
        ≡ some (ptr', len', s')
      → EndsAfter ops' n
      → process_from proc n mmap file (suc fuel) (first_loop block size ops' index s) ≡ some s'
  block_taken fuel n size index block ptr' len' ops' s s' positive small whole bound inside taken
        ends =
      let stepped : step_len size index ≡ size - index = omega arith in
      let l = first_loop block size ops' index s in
      let (few, readable) =
        take_packets-left proc n (size - index) (drop index block) ptr' (size - index) len' s s'
          (omega (arith, length-drop index block)) taken in
      let con : length (replicate {A = ℕ} ts_fec_packet_size 0) ≡ 204 =
        length-replicate {A = ℕ} ts_fec_packet_size 0 in
      last_round proc n mmap file fuel l ptr' len' s' refl positive
        (ap (λ k. take_packets proc n k (drop index block) k s) stepped ∙ taken)
        (omega (arith, con, few, small)) readable
        (λ l₂ used. ends l₂ used.ops (omega (arith, used.left, few)) (used.room ∙ con))

  -- A packet that faults ends the loop with its fault.
  block_faults :
      (fuel n size index : ℕ) (block : Bytes) (ops' : FileOps) (s : S)
      → 0 < n
      → size < 2 ^ 64
      → index ≤ size
      → take_packets proc n (size - index) (drop index block) (size - index) s ≡ none
      → process_from proc n mmap file (suc fuel) (first_loop block size ops' index s) ≡ none
  unfolding process_from finish_packet use_block
  block_faults fuel n size index block ops' s positive bound inside fault =
      let stepped : step_len size index ≡ size - index = omega arith in
      let not_full : (0 == n) ≡ false = ground arith in
      let faults = ap (λ k. take_packets proc n k (drop index block) k s) stepped ∙ fault in
      rw (not_full, faults) refl

  -- Let the loop start at `index` of a block that is the whole file, and let the next block not be
  -- mapped. The loop does what `ts_proc` does on each whole packet of the file from there, in order,
  -- and ends: its state is that after the last of them, and it faults only where `ts_proc` does.
  pub process_from-one_block :
      (fuel n bs index : ℕ) (s : S)
      → 0 < n
      → n ≤ 204
      → length file ≤ bs
      → length file < 2 ^ 64
      → mmap (length file) ≡ false
      → index ≤ length file
      → process_from proc n mmap file (suc fuel) (
          first_loop
            (take bs file)
            (length file)
            (record { block_size = bs; total_size = length file; offset = length file })
            index
            s)
        ≡ each_packet proc n ((length file - index) / n) (drop index file) s
  process_from-one_block fuel n bs index s positive small fits bound unmapped inside =
      let total = length file in
      let ops' : FileOps = record { block_size = bs; total_size = total; offset = total } in
      let all : ◌≡◌ {A = Bytes} (take bs file) file = take_all bs file fits in
      let there = drop index (take bs file) in
      let len = total - index in
      let taken = take_packets_lem proc n there len s positive in
      let same : each_packet proc n (len / n) there s
          ≡ each_packet proc n (len / n) (drop index file) s =
        ap (λ f. each_packet proc n (len / n) (drop index f) s) all in
      elim (Option-cases (each_packet proc n (len / n) there s)) [
        | inl fault ↦
            block_faults fuel n total index (take bs file) ops' s positive bound inside
              (taken ∙ ap (λ o. o >>= λ s'. some (drop (len / n * n) there, len % n, s')) fault)
            ∙ sym fault
            ∙ same
        | inr ran ↦
            block_taken fuel n total index (take bs file) (drop (len / n * n) there) (len % n) ops'
              s ran.0 positive small (omega (arith, length-take bs file)) bound inside
              (taken ∙ ap (λ o. o >>= λ s'. some (drop (len / n * n) there, len % n, s')) ran.1)
              (ends-no_block ops' n (read_fails mmap file ops' unmapped))
            ∙ sym ran.1
            ∙ same
      ]

  -- Let the loop start at `index` of the first block of a file that is longer than a block by a
  -- packet and at most two blocks long, and let the second block be mapped. The loop gives to
  -- `ts_proc` the packets of the first block alone and ends: none of the second is taken, nor the
  -- packet that the two share, since the loop ends as soon as the last block is read.
  pub process_from-two_blocks :
      (fuel n bs index : ℕ) (ptr' : Bytes) (len' : ℕ) (s s' : S)
      → 0 < n
      → n ≤ 204
      → bs + n ≤ length file
      → length file ≤ 2 * bs
      → n ≤ bs
      → bs < 2 ^ 64
      → mmap bs ≡ true
      → index ≤ bs
      → take_packets proc n (bs - index) (drop index (take bs file)) (bs - index) s
        ≡ some (ptr', len', s')
      → process_from proc n mmap file (suc fuel) (
          first_loop
            (take bs file)
            bs
            (record { block_size = bs; total_size = length file; offset = bs })
            index
            s)
        ≡ some s'
  process_from-two_blocks fuel n bs index ptr' len' s s' positive small long short fits bound mapped
        inside taken =
      let total = length file in
      let ops' : FileOps = record { block_size = bs; total_size = total; offset = bs } in
      let ops'' : FileOps = record { block_size = bs; total_size = total; offset = total } in
      let rest = drop bs file in
      block_taken fuel n bs index (take bs file) ptr' len' ops' s s' positive small
        (omega (arith, length-take bs file)) bound inside taken
        (ends-last_block ops' ops'' n (total - bs) (take bs rest)
          (read_second mmap file bs mapped (omega arith) short) (at_end-total bs total) small
          (omega (arith, length-take bs rest, length-drop bs file)))
