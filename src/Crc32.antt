-- ===== src/Crc32.antt =====
-- src/crc32.c: the checksum of a section.
pub mod Table
pub mod Serial
pub mod Residue
mod Tests
use tsanalyze.Base.{
  ℕ, zero, suc, ◌*◌, ◌/◌, ◌%◌, ◌^◌, bit_and, bit_xor, Bytes, [], ◌∷◌, Option, none, some, get_or,
}
use tsanalyze.Base.{u32, ◌<<<◌, ◌>>>◌}
use tsanalyze.Crc32.Table.{crc_table}

-- The loop body. `char` may be signed, but only the low byte of it counts.
unfoldable pub next_crc : ℕ → ℕ → ℕ
next_crc crc x =
    bit_xor (u32 (crc <<< 8)) (get_or crc_table (bit_and (bit_xor (crc >>> 24) x) 0xff) 0)

-- The loop with `left` rounds to go; `none` is a read behind the buffer.
unfoldable pub crc_from : ℕ → Bytes → ℕ → Option ℕ
crc_from zero buf crc = some crc
crc_from (suc left) [] crc = none
crc_from (suc left) (x ∷ buf) crc = crc_from left buf (next_crc crc x)

unfoldable pub crc32 : Bytes → ℕ → Option ℕ
unfolding crc_from next_crc
crc32 buf len = crc_from len buf 0xffffffff
