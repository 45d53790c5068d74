-- ===== src/Dvb/Time.antt =====
-- src/dvb_si.c: `parse_tdt` and `parse_tot`, the time and date and the time offset table.
use tsanalyze.Base.{
  ℕ, ◌==◌, leb, if◌then◌else◌, Option, none, some, ◌>>=◌, List, Bytes, read8, read16, take, drop,
  length, bit_and,
}
use tsanalyze.Descriptor.{Descriptor, parse_descriptors}

-- `tdt_t`: what is written of it but the table id, and `utc_time` as its five bytes.
pub record Tdt : Type 0 where
  pub section_length : ℕ
  pub utc_time : Bytes

-- `tot_t`, without the unused `crc32`, in the same way.
pub record Tot (D : Type 0) : Type 0 where
  pub section_length : ℕ
  pub utc_time : Bytes
  pub descriptors_loop_length : ℕ
  pub list : List (Descriptor D)

-- The results 0 and -1.
pub data TimeResult : Type 0 where
  taken refused : TimeResult

-- `memcpy` of the five bytes of a time.
abbrev pub read_utc : Bytes → Option Bytes
read_utc pdata = if leb 5 (length pdata) then some (take 5 pdata) else none

-- The table is a part of `psi` and never null.
unfoldable pub parse_tdt : Option Bytes → Tdt → Option (TimeResult × Tdt)
parse_tdt none p = some (refused, p)
parse_tdt (some pbuf) p = do
  tid ← read8 pbuf 0
  if tid == 0x70
      then (do
        field ← read16 pbuf 1
        time ← read_utc (drop 3 pbuf)
        some (taken, record { section_length = bit_and field 0x0FFF; utc_time = time }))
      else some (refused, p)

module _ {D : Type 0} (parse : ℕ → Bytes → ℕ → Option D) where
  unfoldable pub parse_tot : Option Bytes → Tot D → Option (TimeResult × Tot D)
  parse_tot none p = some (refused, p)
  parse_tot (some pbuf) p = do
    tid ← read8 pbuf 0
    if tid == 0x73
        then (do
          field ← read16 pbuf 1
          time ← read_utc (drop 3 pbuf)
          loop ← read16 pbuf 8
          ds ← parse_descriptors parse (drop 10 pbuf) (bit_and loop 0x0FFF)
          let p' : Tot D = record {
            section_length = bit_and field 0x0FFF;
            utc_time = time;
            descriptors_loop_length = bit_and loop 0x0FFF;
            list = ds;
          }
          some (taken, p'))
        else some (refused, p)
