-- ===== src/Ts/Process/Blocks.antt =====
-- src/ts.c: which packets `ts_process` takes from a file of one block, and of two.
use tsanalyze.Base.{
  ℕ, bind-some, cond-true, cond-false, length-drop, zero, suc, ◌+◌, ◌-◌, ◌^◌, ◌≤◌, ◌<◌, ◌==◌, ◌!=◌,
  leb, Bool, true, false, Option, some, Bytes, take, drop, length, memcpy, memcpy_lem,
  length-memcpy, Bool-cases, ◌≡◌, refl, ap, ◌∙◌, arith, inl, inr, ◌++◌,
}
use tsanalyze.Ts.Process.{
  Loop, step_len, take_packets, refill, finish_packet, use_block, next_block, process_from,
}

module _ {S : Type 0} (proc : Bytes → ℕ → S → Option S) (ts_pktlen : ℕ) where
  -- What a round keeps once the packets of its block are taken.
  pub record Used (l l' : Loop S) (len' : ℕ) (s' : S) : Type 0 where
    pub state : l'.state ≡ s'
    pub ops : l'.ops ≡ l.ops
    pub left : l'.pkt_con_len ≡ len'
    pub room : length l'.pkt_con ≡ length l.pkt_con

  use_block_lem :
      (l : Loop S) (ptr' : Bytes) (len' : ℕ) (s' : S)
      → l.pkt_con_len ≡ 0
      → take_packets proc ts_pktlen l.len l.ptr l.len l.state ≡ some (ptr', len', s')
      → len' ≤ length l.pkt_con
      → len' ≤ length ptr'
      → (l' : Loop S) × (use_block proc ts_pktlen l ≡ some l') × Used l l' len' s'
  unfolding use_block
  use_block_lem l ptr' len' s' blank taken fits readable = elim (Bool-cases (len' != 0)) [
    | inl some_left ↦
        let con = take 0 l.pkt_con ++ take len' ptr' ++ drop (0 + len') l.pkt_con in
        let copied : memcpy l.pkt_con 0 ptr' len' ≡ some con =
          memcpy_lem l.pkt_con 0 ptr' len' (omega arith) readable in
        (
          record l { ptr = ptr'; len = len'; state = s'; pkt_con = con; pkt_con_len = len' },
          rw (taken, some_left, copied) refl,
          record {
            state = refl;
            ops = refl;
            left = refl;
            room = length-memcpy l.pkt_con 0 ptr' len' con copied;
          },
        )
    | inr all_used ↦ (
      record l { ptr = ptr'; len = len'; state = s' },
      rw (taken, all_used) refl,
      record { state = refl; ops = refl; left = ground (arith, blank); room = refl },
    )
  ]

  pub refill_lem :
      (l : Loop S)
      → l.pkt_con_len < ts_pktlen
      → ts_pktlen ≤ length l.pkt_con
      → length l.pkt_con < 2 ^ 63
      → ts_pktlen ≤ length l.ptr
      → (l' : Loop S) × (refill proc ts_pktlen l ≡ some l')
        × (l'.state ≡ l.state)
        × (l'.ops ≡ l.ops)
  unfolding refill
  refill_lem l small room bound readable = elim (Bool-cases (l.pkt_con_len != 0)) [
    | inl some_left ↦
        let missing = step_len ts_pktlen l.pkt_con_len in
        let copied = memcpy_lem l.pkt_con l.pkt_con_len l.ptr missing (omega arith) (omega arith) in
        (
          record l {
            pkt_con =
                take l.pkt_con_len l.pkt_con
                ++ take missing l.ptr
                ++ drop (l.pkt_con_len + missing) l.pkt_con;
            ptr = drop missing l.ptr;
            len = step_len l.len missing;
            pkt_con_len = ts_pktlen;
          },
          rw (some_left, copied) refl,
          refl,
          refl,
        )
    | inr nothing_left ↦ (l, rw nothing_left refl, refl, refl)
  ]

  unchanged-left :
      (ptr ptr' : Bytes) (len len' : ℕ) (s s' : S)
      → len ≤ length ptr
      → leb ts_pktlen len ≡ false
      → ◌≡◌ {A = Option (Bytes × ℕ × S)} (some (ptr, len, s)) (some (ptr', len', s'))
      → (len' < ts_pktlen) × (len' ≤ length ptr')
  unchanged-left ptr ptr' len len' s s' inside few same =
      let same_len : len ≡ len' = cc same in
      let same_ptr : ptr ≡ ptr' = cc same in
      (ground arith, omega (arith, same_len, ap length same_ptr))

  -- Less than a packet is left, and it is there to read.
  pub take_packets-left :
      (fuel : ℕ) (ptr ptr' : Bytes) (len len' : ℕ) (s s' : S)
      → len ≤ length ptr
      → take_packets proc ts_pktlen fuel ptr len s ≡ some (ptr', len', s')
      → (len' < ts_pktlen) × (len' ≤ length ptr')
  unfolding take_packets
  take_packets-left zero ptr ptr' len len' s s' inside ran = elim (Bool-cases (leb ts_pktlen len)) [
    | inl more ↦ absurd (ground (arith, cond-true _ _ more ran))
    | inr few ↦ unchanged-left ptr ptr' len len' s s' inside few (cond-false _ _ few ran)
  ]
  take_packets-left (suc fuel) ptr ptr' len len' s s' inside ran =
      elim (Bool-cases (leb ts_pktlen len)) [
        | inl more ↦
            let (s₁, _, later) = bind-some (proc ptr ts_pktlen s) _ (cond-true _ _ more ran) in
            take_packets-left fuel (drop ts_pktlen ptr) ptr' (len - ts_pktlen) len' s₁ s'
              (omega (arith, length-drop ts_pktlen ptr)) later
        | inr few ↦ unchanged-left ptr ptr' len len' s s' inside few (cond-false _ _ few ran)
      ]

  module _ (mmap : ℕ → Bool) (file : Bytes) where
    -- The first round, when the read that follows it is the last.
    pub last_round :
        (fuel : ℕ) (l : Loop S) (ptr' : Bytes) (len' : ℕ) (s' : S)
        → l.pkt_con_len ≡ 0
        → 0 < ts_pktlen
        → take_packets proc ts_pktlen l.len l.ptr l.len l.state ≡ some (ptr', len', s')
        → len' ≤ length l.pkt_con
        → len' ≤ length ptr'
        → ((l₂ : Loop S)
            → Used l l₂ len' s'
            → (l₃ : Loop S) × (next_block proc ts_pktlen mmap file l₂ ≡ some (true, l₃))
              × (l₃.state ≡ l₂.state))
        → process_from proc ts_pktlen mmap file (suc fuel) l ≡ some s'
    unfolding process_from finish_packet
    last_round fuel l ptr' len' s' blank positive taken fits readable next =
        let (l₂, used, kept) = use_block_lem l ptr' len' s' blank taken fits readable in
        let (l₃, stopped, same) = next l₂ kept in
        let not_full : (l.pkt_con_len == ts_pktlen) ≡ false = ground (arith, blank) in
        rw (not_full, used, stopped) (ap (λ k. some k) (same ∙ kept.state))
