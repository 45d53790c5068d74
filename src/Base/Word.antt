-- ===== src/Base/Word.antt =====
-- Casts to the fixed widths, shifts and big-endian reads. `-` on ℕ stops at 0, so a wrapping
-- subtraction adds the modulus first.
use Prim.Native.Nat.{ℕ, ◌+◌, ◌-◌, ◌*◌, ◌/◌, ◌%◌, ◌^◌}

abbrev pub u8 : ℕ → ℕ
u8 n = n % 2 ^ 8

abbrev pub u16 : ℕ → ℕ
u16 n = n % 2 ^ 16

abbrev pub u32 : ℕ → ℕ
u32 n = n % 2 ^ 32

abbrev pub u64 : ℕ → ℕ
u64 n = n % 2 ^ 64

-- `l -= v` on a `uint8_t`, for `v` below 2 ^ 8.
abbrev pub sub8 : ℕ → ℕ → ℕ
sub8 l v = (l + 2 ^ 8 - v) % 2 ^ 8

-- `l -= v` on a `uint16_t`, for `v` below 2 ^ 16.
abbrev pub sub16 : ℕ → ℕ → ℕ
sub16 l v = (l + 2 ^ 16 - v) % 2 ^ 16

-- `a - b` on a `uint64_t`, for both below 2 ^ 64.
abbrev pub sub64 : ℕ → ℕ → ℕ
sub64 a b = (a + 2 ^ 64 - b) % 2 ^ 64

infixl 75 ◌<<<◌ ◌>>>◌
abbrev pub ◌<<<◌ : ℕ → ℕ → ℕ
x <<< k = x * 2 ^ k

abbrev pub ◌>>>◌ : ℕ → ℕ → ℕ
x >>> k = x / 2 ^ k

-- Bit `k` of a number.
abbrev pub bit : ℕ → ℕ → ℕ
bit x k = x / 2 ^ k % 2
