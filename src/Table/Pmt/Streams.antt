-- ===== src/Table/Pmt/Streams.antt =====
-- src/table.c: the loop of `parse_pmt` over the streams, on what the standard lays out.
use tsanalyze.Base.{
  ℕ, zero, suc, ◌+◌, ◌-◌, ◌*◌, ◌/◌, ◌%◌, ◌≤◌, ◌<◌, Bool, true, Option, some, ◌>>=◌, List, [], ◌∷◌,
  ◌++◌, map, length, length-append, drop, drop-append_length, Bytes, read16, bit_and, bit_or, ◌<<<◌,
  bind-some, ◌≡◌, refl, ap, ◌∙◌, arith,
}
use mathlib.Core.List.{append_assoc}
use tsanalyze.Base.Bits.{bit_or_fields, bit_and_mask}
use tsanalyze.Descriptor.{Descriptor, parse_descriptors}
use tsanalyze.Pes.Header.{NonPs}
use tsanalyze.Table.Pat.{PatResult, parsed}
use tsanalyze.Table.Pmt.{EsNode, Registries, register_stream, read_stream, streams_from}

-- A stream of the table by the standard, with the bytes of its descriptors and what they stand for.
pub record Stream (D : Type 0) : Type 0 where
  pub type : ℕ
  pub reserved : ℕ
  pub pid : ℕ
  pub reserved1 : ℕ
  pub info : Bytes
  pub descriptors : List (Descriptor D)

module _ {D : Type 0} where
  abbrev pub encode_one : Stream D → Bytes
  encode_one s =
      s.type
      ∷ (s.reserved * 32 + s.pid / 256)
      ∷ (s.pid % 256)
      ∷ (s.reserved1 * 16 + length s.info / 256)
      ∷ (length s.info % 256)
      ∷ s.info

  abbrev pub encode : List (Stream D) → Bytes
  encode [] = []
  encode (s ∷ ss) = encode_one s ++ encode ss

  abbrev pub node_of : Stream D → EsNode D
  node_of s = record {
    stream_type = s.type;
    elementary_pid = s.pid;
    es_info_length = length s.info;
    descriptors = s.descriptors;
  }

  module _ (parse : ℕ → Bytes → ℕ → Option D) where
    pub record IsStream (s : Stream D) : Type 0 where
      pub three_bits : s.reserved < 8
      pub pid_bits : s.pid < 8192
      pub four_bits : s.reserved1 < 16
      pub info_bits : length s.info < 4096
      pub read :
          (rest : Bytes)
          → parse_descriptors parse (s.info ++ rest) (length s.info) ≡ some s.descriptors

    abbrev pub AreStreams : List (Stream D) → Type 0
    AreStreams [] = Unit {0}
    AreStreams (s ∷ ss) = IsStream s × AreStreams ss

    read_stream-encode :
        (s : Stream D) (rest : Bytes)
        → IsStream s
        → read_stream parse (encode_one s ++ rest) ≡ some (node_of s)
    unfolding read_stream read16
    read_stream-encode s rest ok =
        let n = length s.info in
        let pid_field = bit_or ((s.reserved * 32 + s.pid / 256) <<< 8) (s.pid % 256) in
        let len_field = bit_or ((s.reserved1 * 16 + n / 256) <<< 8) (n % 256) in
        let pid_read : bit_and pid_field 0x1FFF ≡ s.pid =
          bit_and_mask 13 pid_field
          ∙ omega (
            arith,
            ok.three_bits,
            ok.pid_bits,
            bit_or_fields 8 (s.reserved * 32 + s.pid / 256) (s.pid % 256) (omega arith),
          ) in
        let len_read : bit_and len_field 0x0FFF ≡ n =
          bit_and_mask 12 len_field
          ∙ omega (
            arith,
            ok.four_bits,
            ok.info_bits,
            bit_or_fields 8 (s.reserved1 * 16 + n / 256) (n % 256) (omega arith),
          ) in
        rw (len_read, pid_read, ok.read rest) refl

    module _ {Priv : Type 0} (new_subtitle new_teletext : Option Priv) (zero_header : NonPs)
        (memory : Bool) where
      -- The streams registered one after the other.
      abbrev pub register_all : List (EsNode D) → Registries Priv → Option (Registries Priv)
      register_all [] r = some r
      register_all (pn ∷ rest) r =
          register_stream new_subtitle new_teletext zero_header memory pn r >>= register_all rest

      streams_from-step :
          (fuel len : ℕ) (pdata : Bytes) (pn : EsNode D) (later : List (EsNode D))
          (r r₁ r' : Registries Priv) (result : PatResult)
          → read_stream parse pdata ≡ some pn
          → register_stream new_subtitle new_teletext zero_header memory pn r ≡ some r₁
          → streams_from new_subtitle new_teletext zero_header memory parse true fuel
              (drop (5 + pn.es_info_length) pdata)
              (suc len - (5 + pn.es_info_length))
              r₁
            ≡ some (result, later, r')
          → streams_from new_subtitle new_teletext zero_header memory parse true
              (suc fuel)
              pdata
              (suc len)
              r
            ≡ some (result, pn ∷ later, r')
      unfolding streams_from
      streams_from-step fuel len pdata pn later r r₁ r' result read registered rest =
          rw (read, registered, rest) refl

      streams_from-zero :
          (pdata : Bytes) (fuel : ℕ) (r : Registries Priv)
          → streams_from new_subtitle new_teletext zero_header memory parse true fuel pdata 0 r
            ≡ some (parsed, [], r)
      unfolding streams_from
      streams_from-zero pdata zero r = refl
      streams_from-zero pdata (suc fuel) r = refl

      -- Over the bytes of streams laid out by the standard, whose descriptors are read back as they
      -- are, and which can be registered one after the other, the loop reads to their end within
      -- its rounds, makes a node of each in order, and has registered them in that order.
      pub streams_from-encode :
          (ss : List (Stream D)) (rest : Bytes) (fuel : ℕ) (r r' : Registries Priv)
          → AreStreams ss
          → length (encode ss) ≤ fuel
          → register_all (map node_of ss) r ≡ some r'
          → streams_from new_subtitle new_teletext zero_header memory parse true fuel
              (encode ss ++ rest)
              (length (encode ss))
              r
            ≡ some (parsed, map node_of ss, r')
      streams_from-encode [] rest fuel r r' ok enough ran =
          streams_from-zero rest fuel r ∙ ap (λ o. o >>= λ k. some (parsed, [], k)) ran
      streams_from-encode (s ∷ ss) rest zero r r' ok enough ran = absurd (omega arith)
      streams_from-encode (s ∷ ss) rest (suc fuel) r r' ok enough ran =
          let (r₁, registered, ran') =
            bind-some (register_stream new_subtitle new_teletext zero_header memory (node_of s) r) _
              ran in
          let one = encode_one s in
          let n = length s.info in
          let len = length s.info + 4 + length (encode ss) in
          let whole : length (encode (s ∷ ss)) ≡ suc len =
            omega (arith, length-append one (encode ss)) in
          let left : suc len - (5 + n) ≡ length (encode ss) = omega arith in
          let same : 5 + n ≡ length one = omega arith in
          let behind : drop (5 + n) (one ++ (encode ss ++ rest)) ≡ encode ss ++ rest =
            ap (λ k. drop k (one ++ (encode ss ++ rest))) same
            ∙ drop-append_length one (encode ss ++ rest) in
          let loop = streams_from new_subtitle new_teletext zero_header memory parse true in
          ap (λ l. loop (suc fuel) l (length (encode (s ∷ ss))) r)
            (append_assoc one (encode ss) rest)
          ∙ ap (λ k. loop (suc fuel) (one ++ (encode ss ++ rest)) k r) whole
          ∙ streams_from-step fuel len (one ++ (encode ss ++ rest)) (node_of s) (map node_of ss) r
              r₁ r' parsed (read_stream-encode s (encode ss ++ rest) ok.0) registered
              (ap (λ l. loop fuel l (suc len - (5 + n)) r₁) behind
                ∙ ap (λ k. loop fuel (encode ss ++ rest) k r₁) left
                ∙ streams_from-encode ss rest fuel r₁ r' ok.1 (omega (arith, whole)) ran')
