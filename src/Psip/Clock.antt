-- ===== src/Psip/Clock.antt =====
-- src/atsc_psip.c: `parse_stt`, the system time table.
use tsanalyze.Base.{
  ℕ, zero, suc, ◌+◌, ◌≤◌, ◌<◌, Option, none, some, ◌>>=◌, bind-none, List, [], ◌++◌, length, Bytes,
  read8, read16, read32, sub16, drop, Heap, ◌≡◌, refl, ap, ◌∙◌, arith,
}
use tsanalyze.Descriptor.{Descriptor, parse_descriptors}
use tsanalyze.Table.Header.{TableHeader}
use tsanalyze.Table.Header.Section.{section_bytes, IsFresh}
use tsanalyze.Table.Pat.{PatResult, parsed}
use tsanalyze.Psip.Parse.{parse_table, parse_table-section_bytes}

-- `atsc_stt_t`
pub record AtscStt (D : Type 0) : Type 0 where
  pub stt_header : TableHeader
  pub protocol_version : ℕ
  pub system_time : ℕ
  pub gps_utc_offset : ℕ
  pub daylight_saving : ℕ
  pub list : List (Descriptor D)

module _ {D : Type 0} (parse : ℕ → Bytes → ℕ → Option D) (fuel : ℕ) where
  -- The loop over the descriptors, which does not change `section_len`; `none` is a read behind the
  -- table, or a loop that does not end within `fuel` rounds.
  unfoldable pub descriptors_loop :
      ℕ → ℕ → Bytes → List (Descriptor D) → Option (List (Descriptor D))
  descriptors_loop left zero pdata list = some list
  descriptors_loop zero (suc len) pdata list = none
  descriptors_loop (suc left) (suc len) pdata list = do
    ds ← parse_descriptors parse pdata (suc len)
    descriptors_loop left (suc len) pdata ds

  unfoldable pub read_stt : Bytes → AtscStt D → Option (PatResult × AtscStt D)
  unfolding descriptors_loop
  read_stt pdata t = do
    version ← read8 pdata 0
    time ← read32 pdata 1
    offset ← read8 pdata 5
    saving ← read16 pdata 6
    let section_len = sub16 (sub16 t.stt_header.section_length (5 + 4)) 8
    ds ← descriptors_loop fuel section_len (drop 8 pdata) []
    let t' : AtscStt D = record t {
      protocol_version = version;
      system_time = time;
      gps_utc_offset = offset;
      daylight_saving = saving;
      list = ds;
    }
    some (parsed, t')

  unfoldable pub parse_stt :
      (ℕ → Option Bytes)
      → Option Bytes
      → ℕ
      → AtscStt D
      → Heap
      → Option (PatResult × AtscStt D × Heap)
  unfolding read_stt
  parse_stt = parse_table (λ t. t.stt_header) (λ h t. record t { stt_header = h }) read_stt

  never_ends :
      (left len : ℕ) (pdata : Bytes) (list : List (Descriptor D))
      → 0 < len
      → descriptors_loop left len pdata list ≡ none
  unfolding descriptors_loop
  never_ends left zero pdata list more = absurd (omega arith)
  never_ends zero (suc len) pdata list more = refl
  never_ends (suc left) (suc len) pdata list more =
      bind-none (parse_descriptors parse pdata (suc len)) _
        (λ ds. never_ends left (suc len) pdata ds more)

  read_stt-none :
      (pdata : Bytes) (t : AtscStt D)
      → 0 < sub16 (sub16 t.stt_header.section_length (5 + 4)) 8
      → read_stt pdata t ≡ none
  unfolding read_stt
  read_stt-none pdata t more =
      let stuck =
        never_ends fuel (sub16 (sub16 t.stt_header.section_length (5 + 4)) 8) (drop 8 pdata) []
          more in
      bind-none (read8 pdata 0) _ (λ _.
        bind-none (read32 pdata 1) _ (λ _.
          bind-none (read8 pdata 5) _ (λ _. bind-none (read16 pdata 6) _ (λ _. rw stuck refl))))

  -- Let no section of the table have come before. On a section by the standard with more than the
  -- eight bytes of a table without descriptors, `parse_stt` does not end, however many rounds its
  -- loop is given, or reads behind the table.
  pub parse_stt-none :
      (malloc : ℕ → Option Bytes) (t : AtscStt D) (tid ext control : ℕ) (body crc b : Bytes)
      (mem : Heap)
      → IsFresh t.stt_header
      → 8 < length body
      → length body ≤ 1012
      → length crc ≡ 4
      → malloc (9 + length body) ≡ some b
      → length b ≡ 9 + length body
      → parse_stt malloc (some (section_bytes tid ext control body crc)) (9 + length body + 3) t mem
        ≡ none
  unfolding parse_stt
  parse_stt-none malloc t tid ext control body crc b mem fresh more few four given sized =
      let (h', mem', five, counted, ran) =
        parse_table-section_bytes (λ t. t.stt_header) (λ h t. record t { stt_header = h }) read_stt
          malloc t tid ext control body crc b mem fresh few four given sized in
      ran
      ∙ ap (λ o. o >>= λ k. some (k.0, k.1, mem'))
          (read_stt-none (body ++ (crc ++ five)) (record t { stt_header = h' })
            (omega (arith, counted, more, few)))
