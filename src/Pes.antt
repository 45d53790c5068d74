-- ===== src/Pes.antt =====
-- src/pes.c: the PES packets, what is kept of each elementary stream, and which PIDs carry one.
pub mod Header
pub mod Extension
pub mod Packet
pub mod Steps
pub mod Fields
pub mod Plain
pub mod Extended
pub mod HeaderEnd
pub mod Payload
pub mod Entries
pub mod Clock
pub mod Examples
mod Tests
use tsanalyze.Base.{
  ℕ, zero, suc, ◌+◌, ◌==◌, ltb, if◌then◌else◌, Bool, true, false, Option, none, some, ◌>>=◌, List,
  [], ◌∷◌, ◌++◌, Bytes, get_elem?, set, u16, update, not, leb, take, length,
}
use tsanalyze.Bitmap.{Bitmap, bitmap64_get, bitmap64_set}
use tsanalyze.Filter.{Filters, filter_alloc, filter_set, filter_lookup, filter_free}
use tsanalyze.Table.Register.{table_param}
use tsanalyze.Table.Ops.{Callback, pes_proc}
use tsanalyze.Pes.Header.{NonPs}

-- The functions that a stream's data may be given to, of src/subtitle.c and src/teletext.c.
pub data DataCallback : Type 0 where
  parse_subtitle parse_teletext : DataCallback

-- `pes_t`, with `Priv` for what `priv` points at. The source keeps `packet_data` and
-- `PES_packet_data_byte` in one place, a union: each packet writes the pointer after the last read
-- of `packet_data`.
pub record Pes (Priv : Type 0) : Type 0 where
  pub pid : ℕ
  pub type : ℕ
  pub packet_start_code_prefix : ℕ
  pub stream_id : ℕ
  pub pes_packet_length : ℕ
  pub packet_data : NonPs
  pub pes_packet_data_byte : Option Bytes
  pub tag : ℕ
  pub priv : Option Priv
  pub cb : Option DataCallback

-- What `pes.list` points at.
pub data PesList (Priv : Type 0) : Type 0 where
  null freed : PesList Priv
  block : List (Pes Priv) → PesList Priv

-- `mpegts_pes_t`
pub record MpegtsPes (Priv : Type 0) : Type 0 where
  pub pid_num : ℕ
  pub pid_bitmap : Bitmap
  pub pid_index : ℕ → ℕ
  pub list : PesList Priv

module _ {Priv : Type 0} where
  -- `pes.list[i]`
  abbrev pub entry : PesList Priv → ℕ → Option (Pes Priv)
  entry null i = none
  entry freed i = none
  entry (block entries) i = get_elem? entries i

  abbrev pub put_entry : PesList Priv → ℕ → Pes Priv → PesList Priv
  put_entry null i pt = null
  put_entry freed i pt = freed
  put_entry (block entries) i pt = block (set entries i pt)

  -- `realloc` of the list to one entry more, with the new entry filled.
  abbrev pub append_entry : PesList Priv → Pes Priv → Option (PesList Priv)
  append_entry null pt = some (block (pt ∷ []))
  append_entry freed pt = none
  append_entry (block entries) pt = some (block (entries ++ (pt ∷ [])))

  -- `free(pes.list)`
  abbrev pub free_list : PesList Priv → Option (PesList Priv)
  free_list null = some null
  free_list freed = none
  free_list (block entries) = some freed

  module _ (zero_header : NonPs) where
    -- An entry of zeros with the PID and the type of the stream.
    abbrev pub fresh_entry : ℕ → ℕ → Pes Priv
    fresh_entry pid stream_type = record {
      pid = pid;
      type = stream_type;
      packet_start_code_prefix = 0;
      stream_id = 0;
      pes_packet_length = 0;
      packet_data = zero_header;
      pes_packet_data_byte = none;
      tag = 0;
      priv = none;
      cb = none;
    }

    -- `memory` says whether `realloc` gives the list, and `filter_memory` the filter's slot.
    unfoldable pub register_pes_ops :
        Bool
        → Bool
        → ℕ
        → ℕ
        → MpegtsPes Priv
        → Filters Callback
        → Option (MpegtsPes Priv × Filters Callback)
    register_pes_ops memory filter_memory pid stream_type pes fs = do
      registered ← bitmap64_get pes.pid_bitmap pid
      if registered then some (pes, fs) else do
        bitmap' ← bitmap64_set pes.pid_bitmap pid
        let marked : MpegtsPes Priv = record pes { pid_bitmap = bitmap' }
        if not memory then some (marked, fs) else do
          list' ← append_entry pes.list (fresh_entry pid stream_type)
          let (f, fs') = filter_alloc filter_memory pid fs
          (status, fs'') ← filter_set f (some (table_param 0 0)) pes_proc fs'
          some (
            record marked {
              list = list';
              pid_index = update pes.pid_index pid pes.pid_num;
              pid_num = u16 (pes.pid_num + 1);
            },
            fs'',
          )

  -- The loop of `check_es_pid`, with `left` rounds to go.
  unfoldable pub check_rounds : ℕ → ℕ → MpegtsPes Priv → Option Bool
  check_rounds zero pid pes = some false
  check_rounds (suc left) pid pes =
      let rest = check_rounds left pid pes in
      do registered ← bitmap64_get pes.pid_bitmap pid; if registered then some true else rest

  -- `detail` is the option of that name. The loop runs from 0x20 to 0x1FFE.
  unfoldable pub check_es_pid : Bool → ℕ → MpegtsPes Priv → Option Bool
  check_es_pid detail pid pes = if not detail then some false else check_rounds 0x1FDF pid pes

  -- The entries that the loop over `pid_num` visits; past the block it faults.
  abbrev pub listed : PesList Priv → ℕ → Option (List (Pes Priv))
  listed pes_list zero = some []
  listed null (suc n) = none
  listed freed (suc n) = none
  listed (block entries) (suc n) =
      if leb (suc n) (length entries) then some (take (suc n) entries) else none

  -- `none` for one of the two functions is a fault in it.
  module _ (free_subtitles free_teletext : Priv → Option (Unit {0})) where
    unfoldable pub free_pes_private : Pes Priv → Option (Unit {0})
    free_pes_private pt = elim pt.cb [
      | none ↦ some tt
      | some _ ↦ elim pt.priv [
        | none ↦ some tt
        | some data' ↦
            if pt.tag == 0x59
            then free_subtitles data'
            else if pt.tag == 0x56
            then free_teletext data'
            else some tt
      ]
    ]

    unfoldable pub unregister_entries :
        List (Pes Priv) → Filters Callback → Option (Filters Callback)
    unfolding free_pes_private
    unregister_entries [] fs = some fs
    unregister_entries (pt ∷ rest) fs = do
      fs' ← elim (filter_lookup pt.pid (some (table_param 0 0)) fs) [
        | none ↦ some fs
        | some f ↦ (do (status, fs') ← filter_free (some f) fs; some fs')
      ]
      freed' ← free_pes_private pt
      unregister_entries rest fs'

    unfoldable pub unregister_pes_ops :
        MpegtsPes Priv → Filters Callback → Option (MpegtsPes Priv × Filters Callback)
    unfolding unregister_entries
    unregister_pes_ops pes fs = do
      entries ← listed pes.list pes.pid_num
      fs' ← unregister_entries entries fs
      list' ← free_list pes.list
      some (record pes { pid_num = 0; list = list' }, fs')
