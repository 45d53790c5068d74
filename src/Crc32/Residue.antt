-- ===== src/Crc32/Residue.antt =====
-- src/crc32.c: a section that ends in its checksum has the checksum 0.
use tsanalyze.Base.{ℕ, suc, ◌+◌, ◌*◌, ◌/◌, ◌%◌, ◌^◌, ◌<◌, Bytes, [], ◌∷◌, ◌++◌}
use tsanalyze.Base.{some, ◌>>=◌, length, ◌≡◌, refl, ◌∙◌, ap, arith}
use tsanalyze.Base.Bits.Xor.{xor_self, xor-zero}
use tsanalyze.Crc32.{next_crc, crc_from, crc32}

-- A number of 32 bits, its highest byte first.
abbrev pub big_endian : ℕ → Bytes
big_endian n = n / 2 ^ 24 ∷ n / 2 ^ 16 % 256 ∷ n / 2 ^ 8 % 256 ∷ n % 256 ∷ []

next_crc-top : (crc x : ℕ) → crc / 2 ^ 24 ≡ x → next_crc crc x ≡ crc * 2 ^ 8 % 2 ^ 32
unfolding next_crc
next_crc-top crc x same = rw (same, xor_self x) (xor-zero (crc * 2 ^ 8 % 2 ^ 32))

suc-add : (m n : ℕ) → suc m + n ≡ suc (m + n)
suc-add m n = omega arith

crc_from-append :
    (buf rest : Bytes) (n crc : ℕ)
    → crc_from (length buf + n) (buf ++ rest) crc
      ≡ (crc_from (length buf) buf crc >>= λ crc'. crc_from n rest crc')
unfolding crc_from
crc_from-append [] rest n crc = ap (λ k. crc_from k rest crc) (omega arith)
crc_from-append (x ∷ buf) rest n crc =
    ap (λ k. crc_from k (x ∷ (buf ++ rest)) crc) (suc-add (length buf) n)
    ∙ crc_from-append buf rest n (next_crc crc x)

crc_from-big_endian : (crc : ℕ) → crc < 2 ^ 32 → crc_from 4 (big_endian crc) crc ≡ some 0
unfolding crc_from
crc_from-big_endian crc word =
    let crc₁ = crc * 2 ^ 8 % 2 ^ 32 in
    let crc₂ = crc₁ * 2 ^ 8 % 2 ^ 32 in
    let crc₃ = crc₂ * 2 ^ 8 % 2 ^ 32 in
    ap some (
      ap
        (λ c. next_crc (next_crc (next_crc c (crc / 2 ^ 16 % 256)) (crc / 2 ^ 8 % 256)) (crc % 256))
        (next_crc-top crc (crc / 2 ^ 24) refl)
      ∙ ap (λ c. next_crc (next_crc c (crc / 2 ^ 8 % 256)) (crc % 256))
          (next_crc-top crc₁ (crc / 2 ^ 16 % 256) (omega arith))
      ∙ ap (λ c. next_crc c (crc % 256)) (next_crc-top crc₂ (crc / 2 ^ 8 % 256) (omega arith))
      ∙ next_crc-top crc₃ (crc % 256) (omega arith)
      ∙ omega arith)

-- With the checksum of a buffer, a word of 32 bits, behind the buffer, highest byte first, the
-- checksum of the whole is 0.
pub crc32-append :
    (buf : Bytes) (crc : ℕ)
    → crc < 2 ^ 32
    → crc32 buf (length buf) ≡ some crc
    → crc32 (buf ++ big_endian crc) (length buf + 4) ≡ some 0
unfolding crc32
crc32-append buf crc word found =
    crc_from-append buf (big_endian crc) 4 0xffffffff
    ∙ ap (λ o. o >>= λ crc'. crc_from 4 (big_endian crc) crc') found
    ∙ crc_from-big_endian crc word
