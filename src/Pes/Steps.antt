-- ===== src/Pes/Steps.antt =====
-- src/pes.c: how far each part of a PES header moves the pointer and the count of the header.
use tsanalyze.Base.{
  ℕ, ◌+◌, ◌*◌, ◌!=◌, ◌<◌, if◌then◌else◌, bit_or, ◌<<<◌, Option, some, ◌>>=◌, Bytes, read8, read16,
  length, get_or, get_elem?-eq-get_or, Bool-cases, ◌≡◌, refl, sym, ap, ◌∙◌, arith, inl, inr,
}
use tsanalyze.Pes.Header.{Reading}

-- What the later parts leave of the header's first three bytes, and of the extension's flags.
pub record Flags : Type 0 where
  pub timestamps : ℕ
  pub escr : ℕ
  pub es_rate : ℕ
  pub trick_mode : ℕ
  pub copy_info : ℕ
  pub crc : ℕ
  pub extension : ℕ
  pub data_length : ℕ
  pub private_data : ℕ
  pub pack_header : ℕ
  pub sequence_counter : ℕ
  pub std_buffer : ℕ
  pub extension_2 : ℕ

abbrev pub flags_of : Reading → Flags
flags_of r = record {
  timestamps = r.packet_data.pts_dts_flags;
  escr = r.packet_data.escr_flag;
  es_rate = r.packet_data.es_rate_flag;
  trick_mode = r.packet_data.dsm_trick_mode_flag;
  copy_info = r.packet_data.additional_copy_info_flag;
  crc = r.packet_data.pes_crc_flag;
  extension = r.packet_data.pes_extension_flag;
  data_length = r.packet_data.pes_header_data_length;
  private_data = r.packet_data.extension.pes_private_data_flag;
  pack_header = r.packet_data.extension.pack_header_field_flag;
  sequence_counter = r.packet_data.extension.program_packet_sequence_counter_flag;
  std_buffer = r.packet_data.extension.p_std_buffer_flag;
  extension_2 = r.packet_data.extension.pes_extension_flag_2;
}

-- A part ran: `buf` went on by `n` bytes, `head_len` by `counted`.
abbrev pub Moved : ℕ → ℕ → Reading → Option Reading → Type 0
Moved n counted r o =
    (r' : Reading) × (o ≡ some r')
    × (r'.at ≡ r.at + n)
    × (r'.head_len ≡ r.head_len + counted)
    × (flags_of r' ≡ flags_of r)

abbrev pub Step : ℕ → Reading → Option Reading → Type 0
Step n = Moved n n

pub Moved-bind :
    (m m' n n' : ℕ) (r : Reading) (o : Option Reading) (f : Reading → Option Reading)
    → Moved m m' r o
    → ((r' : Reading) → r'.at ≡ r.at + m → flags_of r' ≡ flags_of r → Moved n n' r' (f r'))
    → Moved (m + n) (m' + n') r (o >>= f)
Moved-bind m m' n n' r o f (r₁, ran, at₁, head₁, same₁) next =
    let (r₂, ran', at₂, head₂, same₂) = next r₁ at₁ same₁ in
    (r₂, rw ran ran', omega arith, omega arith, same₂ ∙ same₁)

pub Moved-if :
    (flag n n' : ℕ) (r : Reading) (o : Option Reading)
    → flag < 2
    → (flag ≡ 1 → Moved n n' r o)
    → Moved (n * flag) (n' * flag) r (if flag != 0 then o else some r)
Moved-if flag n n' r o small step = elim (Bool-cases (flag != 0)) [
  | inl on ↦
      let one : flag ≡ 1 = ground arith in
      let times : (k : ℕ) → k * flag ≡ k = λ k. ap (λ t. k * t) one ∙ omega arith in
      let (r', ran, at', head', same) = step one in
      (
        r',
        rw on ran,
        at' ∙ ap (λ k. r.at + k) (sym (times n)),
        head' ∙ ap (λ k. r.head_len + k) (sym (times n')),
        same,
      )
  | inr off ↦
      let unset : flag ≡ 0 = ground arith in
      let none_left : (k m : ℕ) → m ≡ m + k * flag =
        λ k m. sym (ap (λ t. m + k * t) unset ∙ omega arith) in
      (r, rw off refl, none_left n r.at, none_left n' r.head_len, refl)
]

pub readable : (pkt : Bytes) (i : ℕ) → i < length pkt → (v : ℕ) × (read8 pkt i ≡ some v)
readable pkt i inside = (get_or pkt i 0, get_elem?-eq-get_or pkt i 0 inside)

pub readable16 : (pkt : Bytes) (i : ℕ) → i + 1 < length pkt → (v : ℕ) × (read16 pkt i ≡ some v)
unfolding read16
readable16 pkt i inside =
    let (hi, at_hi) = readable pkt i (omega arith) in
    let (lo, at_lo) = readable pkt (i + 1) inside in (bit_or (hi <<< 8) lo, rw (at_hi, at_lo) refl)
