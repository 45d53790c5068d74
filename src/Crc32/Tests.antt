-- ===== src/Crc32/Tests.antt =====
-- src/crc32.c: the checksum of a small section.
use tsanalyze.Base.{◌++◌, Bytes, [], ◌∷◌, some, ◌≡◌, refl, arith}
use tsanalyze.Crc32.{next_crc, crc_from, crc32}
use tsanalyze.Crc32.Serial.{serial, crc32-serial}
use tsanalyze.Crc32.Residue.{crc32-append}

-- The digits of "123456789" have a published checksum.
abbrev digits : Bytes
digits = 0x31 ∷ 0x32 ∷ 0x33 ∷ 0x34 ∷ 0x35 ∷ 0x36 ∷ 0x37 ∷ 0x38 ∷ 0x39 ∷ []

digits_run : crc32 digits 9 ≡ some 0x0376E6E7
unfolding crc32 crc_from next_crc
digits_run = refl

abbrev three : Bytes
three = 0 ∷ 0xB0 ∷ 0x0D ∷ []

crc32-serial_example : crc32 three 3 ≡ some (serial three 0xffffffff)
crc32-serial_example =
    crc32-serial three 3 (omega arith, (omega arith, (omega arith, tt))) (omega arith)

crc32-append_example : crc32 (digits ++ (0x03 ∷ 0x76 ∷ 0xE6 ∷ 0xE7 ∷ [])) 13 ≡ some 0
crc32-append_example = crc32-append digits 0x0376E6E7 (omega arith) digits_run
