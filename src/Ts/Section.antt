-- ===== src/Ts/Section.antt =====
-- src/ts.c: `section_preproc`, which puts a PSI section or a PES packet together from the payloads
-- of the packets of one PID. `malloc` is the block that an allocation gives, or the null pointer.
use tsanalyze.Base.{ℕ, ◌+◌, ◌==◌, ltb, leb, if◌then◌else◌, bit_and, Bool}
use tsanalyze.Base.{Option, none, some, ◌>>=◌, Bytes, read8, read16, memcpy, drop, u16}
use tsanalyze.Base.{ℤ, pos, sub_ℕ, ◌+ℤ◌, leb_ℤ, is_zero, size_of}

abbrev pub max_section_buf : ℕ
max_section_buf = 65535

-- `struct section_parser`
pub record SectionParser : Type 0 where
  pub total_len : ℤ
  pub limit_len : ℕ
  pub cc : ℕ
  pub buffer : Option Bytes
  pub cap : ℕ

abbrev pub init_parser : SectionParser
init_parser = record { total_len = pos 0; limit_len = 0; cc = 0; buffer = none; cap = 0 }

-- `uninit_section_parser`, of every PID; `cc` stays.
unfoldable pub uninit_section_parser : (ℕ → SectionParser) → ℕ → SectionParser
uninit_section_parser sec pid = record (sec pid) {
  total_len = pos 0;
  limit_len = 0;
  buffer = none;
  cap = 0;
}

-- What a call leaves: its value, as the bits of the `int16_t`, `*buffering` and the parser.
pub record Preproc : Type 0 where
  pub ret : ℕ
  pub buffering : Option Bytes
  pub parser : SectionParser

-- -1 as an `int16_t`.
abbrev pub minus_one : ℕ
minus_one = 0xFFFF

abbrev pub waits : ℕ → SectionParser → Preproc
waits r p = record { ret = r; buffering = none; parser = p }

-- `memcpy(pbuf + at, src, n)` into the buffer, once it is there.
unfoldable pub copy_in : SectionParser → ℤ → Bytes → ℤ → Bytes → Option SectionParser
copy_in p at src n pbuf = do
  from ← size_of at
  count ← size_of n
  filled ← memcpy pbuf from src count
  some (record p { buffer = some filled })

abbrev pub pes_limit : ℕ → ℕ
pes_limit field = if ltb 0 field then field + 6 else field

-- A later packet, once the buffer is there.
unfoldable pub append_packet : SectionParser → Bytes → ℕ → Bytes → Option SectionParser
unfolding copy_in
append_packet p pkt len pbuf = do
  p' ← copy_in p p.total_len pkt (pos len) pbuf
  some (record p' { total_len = p'.total_len +ℤ pos len })

abbrev pub is_complete : SectionParser → Bool
is_complete p = leb_ℤ (pos p.limit_len) p.total_len

module _ (malloc : Option Bytes) where
  unfoldable pub sec_getbuf : SectionParser → SectionParser
  sec_getbuf p = elim p.buffer [
    | none ↦ record p { cap = max_section_buf; buffer = malloc }
    | some b ↦ p
  ]

  -- The first packet of what does not fit it.
  unfoldable pub start_buffering : SectionParser → Bytes → Option Preproc
  unfolding sec_getbuf copy_in
  start_buffering p src =
      let p' = sec_getbuf p in
      elim p'.buffer [
        | none ↦ some (waits minus_one p')
        | some pbuf ↦ (do
          p'' ← copy_in p' (pos 0) src p'.total_len pbuf
          some (waits minus_one p''))
      ]

  unfoldable pub psi_start : SectionParser → Bytes → ℕ → Option Preproc
  unfolding start_buffering
  psi_start p pkt len = do
    pointer_field ← read8 pkt 0
    field ← read16 pkt (2 + pointer_field)
    let total = sub_ℕ len (1 + pointer_field)
    let limit = bit_and field 0x0FFF + 3
    let section = drop (1 + pointer_field) pkt
    let p' : SectionParser = record p { total_len = total; limit_len = limit }
    if leb_ℤ (pos limit) total
        then some (record { ret = u16 limit; buffering = some section; parser = p' })
        else start_buffering p' section

  unfoldable pub pes_start : SectionParser → Bytes → ℕ → Option Preproc
  unfolding start_buffering
  pes_start p pkt len = do
    field ← read16 pkt 4
    let limit = pes_limit field
    let p' : SectionParser = record p { total_len = pos len; limit_len = limit }
    if limit == 0
        then some (waits 0 p')
        else if leb limit len
        then some (record { ret = u16 len; buffering = some pkt; parser = p' })
        else start_buffering p' pkt

  unfoldable pub psi_continue : SectionParser → Bytes → ℕ → Option Preproc
  unfolding sec_getbuf append_packet
  psi_continue p pkt len =
      if is_zero p.total_len
      then some (waits minus_one p)
      else let p' = sec_getbuf p in
        elim p'.buffer [
          | none ↦ some (waits minus_one p')
          | some pbuf ↦ (do
            p'' ← append_packet p' pkt len pbuf
            some (
                if is_complete p''
                then record {
                  ret = u16 p''.limit_len;
                  buffering = p''.buffer;
                  parser = record p'' { total_len = pos 0 };
                }
                else waits minus_one p''))
        ]

  unfoldable pub pes_continue : SectionParser → Bytes → ℕ → Option Preproc
  unfolding sec_getbuf append_packet
  pes_continue p pkt len =
      if p.limit_len == 0
      then some (waits 0 p)
      else let p' = sec_getbuf p in
        elim p'.buffer [
          | none ↦ some (waits 0 p')
          | some pbuf ↦ (do
            p'' ← append_packet p' pkt len pbuf
            some (
                if is_complete p''
                then record { ret = u16 p''.limit_len; buffering = p''.buffer; parser = p'' }
                else waits minus_one p''))
        ]

  -- The last argument says whether the PID carries PES packets.
  unfoldable pub section_preproc : SectionParser → Bytes → ℕ → ℕ → ℕ → Bool → Option Preproc
  unfolding psi_start pes_start psi_continue pes_continue
  section_preproc p pkt len payload_unit_start continuity_counter is_pes =
      if payload_unit_start == 1
      then (let p' : SectionParser = record p { cc = continuity_counter } in
          if is_pes then pes_start p' pkt len else psi_start p' pkt len)
      else if is_pes
      then pes_continue p pkt len
      else psi_continue p pkt len
