-- ===== src/Scte/Whole.antt =====
-- src/scte.c: `parse_splice_info` on an insertion by the standard.
use tsanalyze.Base.{
  ℕ, zero, suc, ◌+◌, ◌*◌, ◌/◌, ◌%◌, ◌^◌, ◌>>>◌, ◌≤◌, ◌<◌, ◌==◌, if◌then◌else◌, bit, bits8, true,
  false, Option, some, ◌>>=◌, List, [], ◌∷◌, ◌++◌, length, drop, drop-append_length, drop-add,
  Bytes, bit_and, read8, read16, read32, read16-drop, inl, inr, ◌⊎◌, ◌≡◌, refl, ap, ◌∙◌, arith,
}
use mathlib.Core.List.{append_assoc}
use tsanalyze.Descriptor.{Descriptor}
use tsanalyze.Table.Header.{too_long}
use tsanalyze.Table.Header.Section.{field12_lem}
use tsanalyze.Table.Pat.{parsed}
use tsanalyze.Scte.Command.{InsertEvent, taken, parse_splice_insert}
use tsanalyze.Scte.Command.Parts.{big_endian32, word_lem}
use tsanalyze.Scte.Command.Insertion.{Insertion, IsInsertion, encode_insertion, insertion_details}
use tsanalyze.Scte.Command.Insert.{parse_splice_insert-encode}
use tsanalyze.Scte.Info.{
  Command, inserted, SpliceInfo, accepted, splice_descriptors_from, parse_splice_descriptors,
  run_command, read_splice_info, parse_splice_info,
}

-- A splice section by the standard with an insertion and no descriptor.
pub record InsertSection : Type 0 where
  pub table_id : ℕ
  pub protocol_version : ℕ
  pub algorithm : ℕ
  pub pts_high : ℕ
  pub pts_adjustment : ℕ
  pub cw_index : ℕ
  pub tier : ℕ
  pub command_length : ℕ
  pub event_id : ℕ
  pub insertion : Insertion
  pub rest : Bytes

abbrev pub command_bytes : InsertSection → Bytes
command_bytes x = big_endian32 x.event_id ++ (127 ∷ encode_insertion x.insertion)

abbrev pub info_length : InsertSection → ℕ
info_length x = 11 + length (command_bytes x) + 2 + length x.rest

abbrev pub third_word : InsertSection → ℕ
third_word x = x.tier * 2 ^ 20 + x.command_length * 2 ^ 8 + 5

abbrev pub encode_info : InsertSection → Bytes
encode_info x =
    x.table_id
    ∷ (3 * 16 + info_length x / 256)
    ∷ (info_length x % 256)
    ∷ x.protocol_version
    ∷ (x.algorithm * 2 + x.pts_high)
    ∷ (big_endian32 x.pts_adjustment
        ++ (x.cw_index ∷ (big_endian32 (third_word x) ++ (command_bytes x ++ (0 ∷ 0 ∷ x.rest)))))

-- The length of the command is given, or left open by 0xFFF.
pub record IsInsertSection (x : InsertSection) : Type 0 where
  pub algorithm_bits : x.algorithm < 64
  pub high_bit : x.pts_high < 2
  pub tier_bits : x.tier < 4096
  pub given : (x.command_length ≡ length (command_bytes x)) ⊎ (x.command_length ≡ 0xFFF)
  pub room : info_length x ≤ 0xFFD
  pub insertion : IsInsertion x.insertion

abbrev pub event_of : InsertSection → InsertEvent
event_of x = record {
  splice_event_id = x.event_id;
  splice_event_cancel_indicator = 0;
  details = some (insertion_details x.insertion);
}

abbrev pub info_of : SpliceInfo → InsertSection → SpliceInfo
info_of s x = record s {
  table_id = x.table_id;
  section_syntax_indicator = 0;
  private_indicator = 0;
  sap_type = 3;
  section_length = info_length x;
  protocol_version = x.protocol_version;
  encrypted_packet = 0;
  encryption_algorithm = x.algorithm;
  pts_adjustment_h = x.pts_high;
  pts_adjustment = x.pts_adjustment;
  cw_index = x.cw_index;
  tier = x.tier;
  splice_command_length = x.command_length;
  splice_command_type = 5;
  command = inserted (event_of x);
  descriptor_loop_length = 0;
  list = [];
}

no_descriptors :
    (fuel : ℕ) (ptr : Bytes) → splice_descriptors_from true fuel ptr 0 ≡ some (parsed, [])
unfolding splice_descriptors_from
no_descriptors zero ptr = refl
no_descriptors (suc fuel) ptr = refl

-- What a section without descriptors writes, by the bytes and words it is read from.
abbrev written :
    SpliceInfo → ℕ → ℕ → ℕ → ℕ → ℕ → ℕ → ℕ → Command → List (Descriptor Bytes) → SpliceInfo
written s version encryption pts cw t len type cmd ds = record s {
  protocol_version = version;
  encrypted_packet = bit encryption 7;
  encryption_algorithm = bits8 encryption 6 1;
  pts_adjustment_h = bit encryption 0;
  pts_adjustment = pts;
  cw_index = cw;
  tier = t;
  splice_command_length = len;
  splice_command_type = type;
  command = cmd;
  descriptor_loop_length = 0;
  list = ds;
}

read_splice_info_lem :
    (pbuf : Bytes) (s : SpliceInfo) (version encryption pts cw field t type len ret skipped : ℕ)
    (cmd : Command)
    → read8 pbuf 3 ≡ some version
    → read8 pbuf 4 ≡ some encryption
    → read32 pbuf 5 ≡ some pts
    → read8 pbuf 9 ≡ some cw
    → read32 pbuf 10 ≡ some field
    → (field >>> 20) % 2 ^ 12 ≡ t
    → (field >>> 8) % 2 ^ 12 ≡ len
    → field % 2 ^ 8 ≡ type
    → run_command true type (drop 14 pbuf) s.command ≡ some (ret, cmd)
    → (if len == 0xFFF then ret else len) ≡ skipped
    → read16 pbuf (14 + skipped) ≡ some 0
    → read_splice_info true pbuf s ≡ some (written s version encryption pts cw t len type cmd [])
unfolding read_splice_info parse_splice_descriptors
read_splice_info_lem pbuf s version encryption pts cw field t type len ret skipped cmd at3 at4 at5
      at9 at10 t_read len_read type_read ran skip at_loop =
    let behind = drop (14 + skipped + 2) pbuf in
    rw (at3, at4, at5, at9, at10, t_read, len_read, type_read, ran, skip, at_loop)
      (ap (λ o. o >>= λ k. some (written s version encryption pts cw t len type cmd k.1))
        (no_descriptors (length behind) behind))

parse_splice_info_lem :
    (pbuf : Bytes) (s s'' : SpliceInfo) (tid flags field n : ℕ)
    → read8 pbuf 0 ≡ some tid
    → read8 pbuf 1 ≡ some flags
    → read16 pbuf 1 ≡ some field
    → bit flags 7 ≡ 0
    → bit flags 6 ≡ 0
    → bits8 flags 2 2 ≡ 3
    → bit_and field 0x0FFF ≡ n
    → n ≤ 0xFFD
    → read_splice_info true pbuf (record s {
      table_id = tid;
      section_syntax_indicator = 0;
      private_indicator = 0;
      sap_type = 3;
      section_length = n;
    })
      ≡ some s''
    → parse_splice_info true pbuf s ≡ some (accepted, s'')
unfolding parse_splice_info
parse_splice_info_lem pbuf s s'' tid flags field n at0 at1 at1' syntax private' sap sized room
      read =
    let short_enough : too_long 0 n ≡ false = ground arith in
    rw (at0, at1, at1', syntax, private', sap, sized, short_enough, read) refl

run_insert :
    (pdata : Bytes) (old : Command) (n : ℕ) (e : InsertEvent)
    → parse_splice_insert true pdata ≡ some (taken n e)
    → run_command true 5 pdata old ≡ some (n, inserted e)
unfolding run_command
run_insert pdata old n e ran = rw ran refl

abbrev with_encryption : SpliceInfo → ℕ → ℕ → ℕ → Option SpliceInfo
with_encryption s encrypted algorithm high = some (record s {
  encrypted_packet = encrypted;
  encryption_algorithm = algorithm;
  pts_adjustment_h = high;
})

-- `parse_splice_info` with memory reads a section with an insertion by the standard and no
-- descriptor into its fields and the insertion's, whether the length of the command is given or
-- left open.
pub parse_splice_info-encode :
    (s : SpliceInfo) (x : InsertSection)
    → IsInsertSection x
    → parse_splice_info true (encode_info x) s ≡ some (accepted, info_of s x)
unfolding read16 read32
parse_splice_info-encode s x ok =
    let pbuf = encode_info x in
    let n = info_length x in
    let cmd = command_bytes x in
    let encryption = x.algorithm * 2 + x.pts_high in
    let field = third_word x in
    let len_room : x.command_length < 4096 = elim ok.given [
      | inl e ↦ omega (arith, e, ok.room)
      | inr e ↦ omega (arith, e)
    ] in
    let algorithm_read : bits8 encryption 6 1 ≡ x.algorithm =
      omega (arith, ok.algorithm_bits, ok.high_bit) in
    let clear : bit encryption 7 ≡ 0 = omega (arith, ok.algorithm_bits, ok.high_bit) in
    let high_read : bit encryption 0 ≡ x.pts_high = omega (arith, ok.algorithm_bits, ok.high_bit) in
    let skip : (if x.command_length == 0xFFF then length cmd else x.command_length) ≡ length cmd =
      elim ok.given [ inl e ↦ ground (arith, e) | inr e ↦ rw e refl ] in
    let event = parse_splice_insert-encode x.event_id x.insertion (0 ∷ 0 ∷ x.rest) ok.insertion in
    let joined =
      append_assoc (big_endian32 x.event_id) (127 ∷ encode_insertion x.insertion)
        (0 ∷ 0 ∷ x.rest) in
    let ran : run_command true 5 (cmd ++ (0 ∷ 0 ∷ x.rest)) s.command
        ≡ some (length cmd, inserted (event_of x)) =
      run_insert (cmd ++ (0 ∷ 0 ∷ x.rest)) s.command (length cmd) (event_of x) (
        ap (parse_splice_insert true) joined
        ∙ event
        ∙ ap (λ k. some (taken k (event_of x))) (omega arith)) in
    let at_loop : read16 pbuf (14 + length cmd) ≡ some 0 =
      read16-drop (14 + length cmd) pbuf
      ∙ ap (λ l. read16 l 0)
          (drop-add 14 (length cmd) pbuf ∙ drop-append_length cmd (0 ∷ 0 ∷ x.rest)) in
    let read =
      read_splice_info_lem pbuf
        (record s {
          table_id = x.table_id;
          section_syntax_indicator = 0;
          private_indicator = 0;
          sap_type = 3;
          section_length = n;
        })
        x.protocol_version encryption x.pts_adjustment x.cw_index field x.tier 5 x.command_length
        (length cmd) (length cmd) (inserted (event_of x)) refl refl
        (ap some (word_lem x.pts_adjustment)) refl (ap some (word_lem field))
        (omega (arith, ok.tier_bits, len_room)) (omega (arith, ok.tier_bits, len_room))
        (omega arith) ran skip at_loop in
    parse_splice_info_lem pbuf s (info_of s x) x.table_id (3 * 16 + n / 256) _ n refl refl refl
      (omega (arith, ok.room)) (omega (arith, ok.room)) (omega (arith, ok.room))
      (field12_lem 3 n (omega (arith, ok.room))) ok.room
      (read
        ∙ ap (λ k. with_encryption (info_of s x) k (bits8 encryption 6 1) (bit encryption 0)) clear
        ∙ ap (λ k. with_encryption (info_of s x) 0 k (bit encryption 0)) algorithm_read
        ∙ ap (λ k. with_encryption (info_of s x) 0 x.algorithm k) high_read)
