-- ===== src/Scte/Info.antt =====
-- src/scte.c: the splice section, with the loop over its descriptors, and the callback.
use tsanalyze.Base.{
  ℕ, zero, suc, ◌+◌, ◌-◌, ◌%◌, ◌^◌, ◌>>>◌, ◌==◌, leb, ◌&&◌, if◌then◌else◌, bit, bits8, Bool, Option,
  none, some, ◌>>=◌, List, [], ◌∷◌, ◌++◌, Bytes, read8, read16, read32, bit_and, u64, drop, take,
  replicate, length,
}
use tsanalyze.Descriptor.{Descriptor}
use tsanalyze.Table.Header.{too_long}
use tsanalyze.Table.Pat.{PatResult, parsed, out_of_memory}
use tsanalyze.Scte.Command.{
  SpliceTime, InsertEvent, ScheduleEvent, Outcome, taken, no_memory, parse_splice_time,
  parse_splice_insert, parse_splice_schedule, parse_splice_private,
}

-- The union of `struct splice_info`: what the last command wrote.
pub data Command : Type 0 where
  empty : Command
  scheduled : List ScheduleEvent → Command
  inserted : InsertEvent → Command
  signalled : SpliceTime → Command
  cut_short : Command

-- `struct splice_info`, without the unused checksums.
pub record SpliceInfo : Type 0 where
  pub pid : ℕ
  pub table_id : ℕ
  pub section_syntax_indicator : ℕ
  pub private_indicator : ℕ
  pub sap_type : ℕ
  pub section_length : ℕ
  pub protocol_version : ℕ
  pub encrypted_packet : ℕ
  pub encryption_algorithm : ℕ
  pub pts_adjustment_h : ℕ
  pub pts_adjustment : ℕ
  pub cw_index : ℕ
  pub tier : ℕ
  pub splice_command_length : ℕ
  pub splice_command_type : ℕ
  pub command : Command
  pub descriptor_loop_length : ℕ
  pub list : List (Descriptor Bytes)

-- The value of `ENOMEM`, which a command's parser returns in the place of its length.
abbrev pub enomem : ℕ
enomem = 12

-- The copy of `length - 4` bytes from behind the identifier into a block of `length` zeros; below
-- four the size is negative.
abbrev pub splice_body : ℕ → Bytes → Option Bytes
splice_body size ptr =
    if leb 4 size && leb (size - 4) (length ptr)
    then some (take (size - 4) ptr ++ replicate 4 0)
    else none

-- The loop with `l` bytes to go, an `int`: one below zero ends it as 0 does. A round moves the
-- pointer, so as many rounds as there are bytes are enough.
unfoldable pub splice_descriptors_from :
    Bool → ℕ → Bytes → ℕ → Option (PatResult × List (Descriptor Bytes))
splice_descriptors_from memory fuel ptr zero = some (parsed, [])
splice_descriptors_from memory zero ptr (suc l) = none
splice_descriptors_from memory (suc fuel) ptr (suc l) = do
  tag' ← read8 ptr 0
  size' ← read8 ptr 1
  if memory
      then (do
        body' ← splice_body size' (drop 6 ptr)
        (result, later) ←
            splice_descriptors_from memory fuel (drop (6 + size') ptr) (suc l + 6 - size')
        let d : Descriptor Bytes = record { tag = tag'; size = size'; body = body' }
        some (result, d ∷ later))
      else some (out_of_memory, [])

unfoldable pub parse_splice_descriptors :
    Bool → Bytes → ℕ → Option (PatResult × List (Descriptor Bytes))
unfolding splice_descriptors_from
parse_splice_descriptors memory buf len = splice_descriptors_from memory (length buf) buf len

-- What a command's parser returns, and what it leaves in the union.
abbrev pub after_command : {A : Type 0} → (A → Command) → Outcome A → ℕ × Command
after_command keep (taken n a) = (n, keep a)
after_command keep no_memory = (enomem, cut_short)

-- The `switch` on the type of the command.
unfoldable pub run_command : Bool → ℕ → Bytes → Command → Option (ℕ × Command)
unfolding parse_splice_schedule parse_splice_insert parse_splice_time parse_splice_private
run_command memory type pdata old =
    if type == 4
    then (do out ← parse_splice_schedule memory pdata; some (after_command scheduled out))
    else if type == 5
    then (do out ← parse_splice_insert memory pdata; some (after_command inserted out))
    else if type == 6
    then (do (n, t) ← parse_splice_time pdata; some (n, signalled t))
    else if type == 0xFF
    then (do n ← parse_splice_private pdata; some (n, old))
    else some (0, old)

-- The results 0 and -1.
pub data InfoResult : Type 0 where
  accepted refused : InfoResult

-- What follows the test of the length. The old descriptors are given back, which nothing here
-- observes.
unfoldable pub read_splice_info : Bool → Bytes → SpliceInfo → Option SpliceInfo
unfolding run_command parse_splice_descriptors
read_splice_info memory pbuf s = do
  version ← read8 pbuf 3
  encryption ← read8 pbuf 4
  pts ← read32 pbuf 5
  cw ← read8 pbuf 9
  field ← read32 pbuf 10
  let command_length = (field >>> 8) % 2 ^ 12
  (ret, command') ← run_command memory (field % 2 ^ 8) (drop 14 pbuf) s.command
  let skipped = if command_length == 0xFFF then ret else command_length
  loop ← read16 pbuf (14 + skipped)
  (_, ds) ← parse_splice_descriptors memory (drop (14 + skipped + 2) pbuf) loop
  some (record s {
    protocol_version = version;
    encrypted_packet = bit encryption 7;
    encryption_algorithm = bits8 encryption 6 1;
    pts_adjustment_h = bit encryption 0;
    pts_adjustment = pts;
    cw_index = cw;
    tier = (field >>> 20) % 2 ^ 12;
    splice_command_length = command_length;
    splice_command_type = field % 2 ^ 8;
    command = command';
    descriptor_loop_length = loop;
    list = ds;
  })

unfoldable pub parse_splice_info : Bool → Bytes → SpliceInfo → Option (InfoResult × SpliceInfo)
unfolding read_splice_info
parse_splice_info memory pbuf s = do
  tid ← read8 pbuf 0
  flags ← read8 pbuf 1
  field ← read16 pbuf 1
  let section_len = bit_and field 0x0FFF
  let s' : SpliceInfo = record s {
    table_id = tid;
    section_syntax_indicator = bit flags 7;
    private_indicator = bit flags 6;
    sap_type = bits8 flags 2 2;
  }
  if too_long (bit flags 7) section_len then some (refused, s') else (do
    s'' ← read_splice_info memory pbuf (record s' { section_length = section_len })
    some (accepted, s''))

-- The parts of `mpegts_scte_t` that the callback changes: `list` with its eight entries, and the
-- counter, of 64 bits.
pub record ScteSections : Type 0 where
  pub infos : List SpliceInfo
  pub scte_sections : ℕ

-- The loop over the entries: the first with the PID takes the section.
unfoldable pub give_section :
    Bool → ℕ → Bytes → List SpliceInfo → Option (InfoResult × List SpliceInfo)
unfolding parse_splice_info
give_section memory pid pkt [] = some (refused, [])
give_section memory pid pkt (s ∷ rest) =
    if s.pid == pid
    then (do (_, s') ← parse_splice_info memory pkt s; some (accepted, s' ∷ rest))
    else (do (result, rest') ← give_section memory pid pkt rest; some (result, s ∷ rest'))

unfoldable pub scte_proc : Bool → ℕ → Bytes → ScteSections → Option (InfoResult × ScteSections)
unfolding give_section
scte_proc memory pid pkt st = do
  (result, infos') ← give_section memory pid pkt st.infos
  some (result, record { infos = infos'; scte_sections = u64 (st.scte_sections + 1) })
