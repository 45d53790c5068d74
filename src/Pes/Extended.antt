-- ===== src/Pes/Extended.antt =====
-- src/pes.c: how far the extension of a PES header moves the pointer and the count of the header.
use tsanalyze.Base.{
  ℕ, ◌+◌, ◌*◌, ◌/◌, ◌^◌, ◌≤◌, ◌<◌, bit, bit_and, bit_or, Option, some, ◌>>=◌, Bytes, read8, length,
  take, drop, ◌<<<◌, ◌≡◌, refl, ap, subst, ◌∙◌, arith, le→leb,
}
use tsanalyze.Pes.Header.{Reading, Ppsc, PstdBuffer, skip}
use tsanalyze.Pes.Extension.{
  extension_part, private_data_part, pack_header_part, sequence_counter_part, std_buffer_part,
  extension_field_part, extension_flags, with_extension,
}
use tsanalyze.Pes.Steps.{Flags, Moved, Step, Moved-bind, Moved-if, readable}

private_data_part-Step :
    (pkt : Bytes) (r : Reading)
    → r.packet_data.extension.pes_private_data_flag < 2
    → r.at + 16 * r.packet_data.extension.pes_private_data_flag ≤ length pkt
    → Step (16 * r.packet_data.extension.pes_private_data_flag) r (private_data_part pkt r)
unfolding private_data_part
private_data_part-Step pkt r small inside =
    let e = r.packet_data.extension in
    Moved-if (r.packet_data.extension.pes_private_data_flag) 16 16 r _ small (λ on. (
      skip 16 (with_extension (record e { pes_private_data = take 16 (drop r.at pkt) }) r),
      rw (le→leb (r.at + 16) (length pkt) (omega (arith, on))) refl,
      refl,
      refl,
      refl,
    ))

sequence_counter_part-Moved :
    (pkt : Bytes) (r : Reading)
    → r.packet_data.extension.program_packet_sequence_counter_flag < 2
    → r.at + 2 * r.packet_data.extension.program_packet_sequence_counter_flag ≤ length pkt
    → Moved
        (2 * r.packet_data.extension.program_packet_sequence_counter_flag)
        (0 * r.packet_data.extension.program_packet_sequence_counter_flag)
        r
        (sequence_counter_part pkt r)
unfolding sequence_counter_part
sequence_counter_part-Moved pkt r small inside =
    let e = r.packet_data.extension in
    Moved-if (r.packet_data.extension.program_packet_sequence_counter_flag) 2 0 r _ small (λ on.
      let (a, at_a) = readable pkt r.at (omega (arith, on)) in
      let (b, at_b) = readable pkt (r.at + 1) (omega (arith, on)) in
      let counter : Ppsc = record {
        program_packet_sequence_counter = bit_and a 0x7F;
        mpeg1_mpeg2_identifier = bit b 6;
        original_stuff_length = bit_and b 0x3F;
      } in
      (
        record (with_extension (record e { ppsc = counter }) r) { at = r.at + 2 },
        rw (at_a, at_b) refl,
        refl,
        omega arith,
        refl,
      ))

std_buffer_part-Step :
    (pkt : Bytes) (r : Reading)
    → r.packet_data.extension.p_std_buffer_flag < 2
    → r.at + 2 * r.packet_data.extension.p_std_buffer_flag ≤ length pkt
    → Step (2 * r.packet_data.extension.p_std_buffer_flag) r (std_buffer_part pkt r)
unfolding std_buffer_part
std_buffer_part-Step pkt r small inside =
    let e = r.packet_data.extension in
    Moved-if (r.packet_data.extension.p_std_buffer_flag) 2 2 r _ small (λ on.
      let (a, at_a) = readable pkt r.at (omega (arith, on)) in
      let (b, at_b) = readable pkt (r.at + 1) (omega (arith, on)) in
      let buffer : PstdBuffer = record {
        pstd_buffer_scale = bit a 5;
        pstd_buffer_size = bit_or (bit_and a 0x1F <<< 8) b;
      } in
      (
        skip 2 (with_extension (record e { pstd_buffer = buffer }) r),
        rw (at_a, at_b) refl,
        refl,
        refl,
        refl,
      ))

pack_header_part-off :
    (pkt : Bytes) (r : Reading)
    → r.packet_data.extension.pack_header_field_flag ≡ 0
    → Step 0 r (pack_header_part pkt r)
unfolding pack_header_part
pack_header_part-off pkt r off = (r, rw off refl, omega arith, omega arith, refl)

extension_field_part-off :
    (pkt : Bytes) (r : Reading)
    → r.packet_data.extension.pes_extension_flag_2 ≡ 0
    → Step 0 r (extension_field_part pkt r)
unfolding extension_field_part
extension_field_part-off pkt r off = (r, rw off refl, omega arith, omega arith, refl)

-- The size of an extension without the fields of a size of their own, of its byte of flags.
abbrev pub extension_size : ℕ → ℕ
extension_size x = 1 + (16 * (x / 2 ^ 7) + (0 + (2 * bit x 5 + (2 * bit x 4 + 0))))

pub extension_part-off :
    (pkt : Bytes) (r : Reading)
    → r.packet_data.pes_extension_flag ≡ 0
    → extension_part pkt r ≡ some r
unfolding extension_part
extension_part-off pkt r off = rw off refl

-- The parts behind the extension's flags.
abbrev extension_fields : Bytes → Reading → Option Reading
extension_fields pkt r₁ = do
  r₂ ← private_data_part pkt r₁
  r₃ ← pack_header_part pkt r₂
  r₄ ← sequence_counter_part pkt r₃
  r₅ ← std_buffer_part pkt r₄
  extension_field_part pkt r₅

abbrev flagged : ℕ → Reading → Reading
flagged x r = skip 1 (with_extension (extension_flags x r.packet_data.extension) r)

extension_part-on :
    (pkt : Bytes) (r : Reading) (x : ℕ)
    → r.packet_data.pes_extension_flag ≡ 1
    → read8 pkt r.at ≡ some x
    → extension_part pkt r ≡ extension_fields pkt (flagged x r)
unfolding extension_part
extension_part-on pkt r x on at_x = rw (on, at_x) refl

extension_fields-Moved :
    (pkt : Bytes) (r : Reading) (private_data sequence std : ℕ)
    → r.packet_data.extension.pes_private_data_flag ≡ private_data
    → r.packet_data.extension.program_packet_sequence_counter_flag ≡ sequence
    → r.packet_data.extension.p_std_buffer_flag ≡ std
    → r.packet_data.extension.pack_header_field_flag ≡ 0
    → r.packet_data.extension.pes_extension_flag_2 ≡ 0
    → private_data < 2
    → sequence < 2
    → std < 2
    → r.at + (16 * private_data + (0 + (2 * sequence + (2 * std + 0)))) ≤ length pkt
    → Moved
        (16 * private_data + (0 + (2 * sequence + (2 * std + 0))))
        (16 * private_data + (0 + (0 * sequence + (2 * std + 0))))
        r
        (extension_fields pkt r)
extension_fields-Moved pkt r private_data sequence std is_private is_sequence is_std no_pack
      no_second p_bit s_bit b_bit inside =
    Moved-bind _ _ _ _ r _ _
      (subst (λ n. Step (16 * n) r (private_data_part pkt r)) is_private
        (private_data_part-Step pkt r (omega arith) (omega arith)))
      (λ r₂ at₂ same₂.
        Moved-bind _ _ _ _ r₂ _ _
          (pack_header_part-off pkt r₂ (ap (λ (g : Flags). g.pack_header) same₂ ∙ no_pack))
          (λ r₃ at₃ same₃.
            let e₃ : r₃.packet_data.extension.program_packet_sequence_counter_flag ≡ sequence =
              ap (λ (g : Flags). g.sequence_counter) (same₃ ∙ same₂) ∙ is_sequence in
            Moved-bind _ _ _ _ r₃ _ _
              (subst (λ n. Moved (2 * n) (0 * n) r₃ (sequence_counter_part pkt r₃)) e₃
                (sequence_counter_part-Moved pkt r₃ (omega arith) (omega arith)))
              (λ r₄ at₄ same₄.
                let e₄ : r₄.packet_data.extension.p_std_buffer_flag ≡ std =
                  ap (λ (g : Flags). g.std_buffer) (same₄ ∙ same₃ ∙ same₂) ∙ is_std in
                Moved-bind _ _ _ _ r₄ _ _
                  (subst (λ n. Step (2 * n) r₄ (std_buffer_part pkt r₄)) e₄
                    (std_buffer_part-Step pkt r₄ (omega arith) (omega arith)))
                  (λ r₅ at₅ same₅. extension_field_part-off pkt r₅ (
                    ap (λ (g : Flags). g.extension_2) (same₅ ∙ same₄ ∙ same₃ ∙ same₂)
                    ∙ no_second)))))

-- Only the sequence counter is not counted.
pub extension_part_lem :
    (pkt : Bytes) (r : Reading) (x : ℕ)
    → r.packet_data.pes_extension_flag ≡ 1
    → read8 pkt r.at ≡ some x
    → x < 256
    → bit x 6 ≡ 0
    → bit x 0 ≡ 0
    → r.at + extension_size x ≤ length pkt
    → (r' : Reading) × (extension_part pkt r ≡ some r')
      × (r'.at + r.head_len ≡ r'.head_len + r.at + 2 * bit x 5)
      × (r'.packet_data.pes_header_data_length ≡ r.packet_data.pes_header_data_length)
unfolding extension_flags
extension_part_lem pkt r x on at_x byte no_pack no_second inside =
    let (r', ran, at', head', same) =
      extension_fields-Moved pkt (flagged x r) (x / 2 ^ 7) (bit x 5) (bit x 4) refl refl refl
        no_pack no_second (omega arith) (omega arith) (omega arith) (omega arith) in
    (
      r',
      extension_part-on pkt r x on at_x ∙ ran,
      omega (arith, at', head'),
      ap (λ (g : Flags). g.data_length) same,
    )
