-- ===== src/Psip/Channel/Cable.antt =====
-- src/atsc_psip.c: `parse_vct` on a cable table.
use tsanalyze.Base.{
  ℕ, zero, suc, ◌+◌, ◌≤◌, ◌<◌, true, Option, none, some, ◌>>=◌, ◌∷◌, ◌++◌, length, memcpy, Bytes,
  Heap, ◌≡◌, refl, ap, ◌∙◌, arith,
}
use tsanalyze.Table.Header.Section.{section_bytes, IsFresh}
use tsanalyze.Psip.Parse.{parse_table-section_bytes, entries}
use tsanalyze.Psip.Channel.{AtscVct, read_channel, read_vct, parse_vct}

module _ {D : Type 0} (parse : ℕ → Bytes → ℕ → Option D) where
  read_channel-none : (pdata : Bytes) → read_channel parse true pdata ≡ none
  unfolding read_channel memcpy
  read_channel-none pdata = refl

  entries-none :
      (count : ℕ) (pdata : Bytes) → 0 < count → entries (read_channel parse true) count pdata ≡ none
  unfolding entries
  entries-none zero pdata some_channels = absurd (omega arith)
  entries-none (suc count) pdata some_channels = rw (read_channel-none pdata) refl

  read_vct-none :
      (version count : ℕ) (rest : Bytes) (v : AtscVct D)
      → 0 < count
      → read_vct parse true true (version ∷ count ∷ rest) v ≡ none
  unfolding read_vct
  read_vct-none version count rest v some_channels = rw (entries-none count rest some_channels) refl

  -- Let no section of the table have come before. With memory, `parse_vct` copies the name of the
  -- first channel of a cable table over the end of its field, whatever the section by the standard
  -- holds behind the number of its channels.
  parse_vct-none :
      (malloc : ℕ → Option Bytes) (v : AtscVct D) (tid ext control version count : ℕ)
      (channels crc b : Bytes) (mem : Heap)
      → IsFresh v.vct_header
      → 0 < count
      → length channels ≤ 1010
      → length crc ≡ 4
      → malloc (9 + length (version ∷ count ∷ channels)) ≡ some b
      → length b ≡ 9 + length (version ∷ count ∷ channels)
      → parse_vct parse true true malloc
          (some (section_bytes tid ext control (version ∷ count ∷ channels) crc))
          (9 + length (version ∷ count ∷ channels) + 3)
          v
          mem
        ≡ none
  unfolding parse_vct
  parse_vct-none malloc v tid ext control version count channels crc b mem fresh some_channels few
        four given sized =
      let (h', mem', five, counted, ran) =
        parse_table-section_bytes (λ v. v.vct_header) (λ h v. record v { vct_header = h })
          (read_vct parse true true) malloc v tid ext control (version ∷ count ∷ channels) crc b mem
          fresh (omega (arith, few)) four given sized in
      ran
      ∙ ap (λ o. o >>= λ k. some (k.0, k.1, mem'))
          (read_vct-none version count (channels ++ (crc ++ five)) (record v { vct_header = h' })
            some_channels)
