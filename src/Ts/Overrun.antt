-- ===== src/Ts/Overrun.antt =====
-- src/ts.c: when a PES packet runs over the reassembly buffer.
use tsanalyze.Base.{ℕ, ◌+◌, ◌≤◌, ◌<◌, true, Option, none, some, Bytes, length, memcpy}
use tsanalyze.Base.{pos, ◌≡◌, ◌≢◌, ◌↔◌, arith}
use tsanalyze.Ts.Section.{
  SectionParser, section_preproc, pes_continue, append_packet, copy_in, sec_getbuf,
}

-- A later packet of a PES packet with a length is taken exactly when the bytes so far and its
-- payload fit the buffer; otherwise `section_preproc` writes behind the buffer.
pub pes_continue_overrun :
    (malloc : Option Bytes) (p : SectionParser) (block pkt : Bytes) (t n : ℕ)
    → p.buffer ≡ some block
    → p.total_len ≡ pos t
    → p.limit_len ≢ 0
    → n ≤ length pkt
    → (section_preproc malloc p pkt n 0 0 true ≡ none) ↔ (length block < t + n)
unfolding section_preproc pes_continue sec_getbuf append_packet copy_in memcpy
pes_continue_overrun malloc p block pkt t n buffered counted limited readable =
    (λ e. ground arith, λ e. ground arith)
