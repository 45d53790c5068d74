-- ===== src/Ts/Packet/Header.antt =====
-- src/ts.c: the header that `ts_proc` reads against the layout of ISO/IEC 13818-1.
use tsanalyze.Base.{ℕ, ◌+◌, ◌-◌, ◌*◌, ◌/◌, ◌%◌, ◌<◌, ◌≤◌, bit_and, bit_or, some, Bytes, ◌∷◌, ◌>>>◌}
use tsanalyze.Base.{◌≡◌, arith, ◌<<<◌, read16}
use tsanalyze.Base.Bits.{bit_and_mask, bit_or_fields}
use tsanalyze.Ts.Packet.{read_header, ts_sync_byte}

-- The fields of a packet header.
pub record Layout : Type 0 where
  pub error : ℕ
  pub start : ℕ
  pub priority : ℕ
  pub pid : ℕ
  pub scrambling : ℕ
  pub control : ℕ
  pub counter : ℕ

-- Each field fits its bits.
pub record IsLayout (l : Layout) : Type 0 where
  pub error_bit : l.error < 2
  pub start_bit : l.start < 2
  pub priority_bit : l.priority < 2
  pub pid_bits : l.pid < 8192
  pub scrambling_bits : l.scrambling < 4
  pub control_bits : l.control < 4
  pub counter_bits : l.counter < 16

abbrev byte_1 : Layout → ℕ
byte_1 l = l.error * 128 + l.start * 64 + l.priority * 32 + l.pid / 256

abbrev byte_2 : Layout → ℕ
byte_2 l = l.pid % 256

abbrev byte_3 : Layout → ℕ
byte_3 l = l.scrambling * 64 + l.control * 16 + l.counter

-- A packet with that header, before its payload.
abbrev pub encode : Layout → Bytes → Bytes
encode l payload = ts_sync_byte ∷ byte_1 l ∷ byte_2 l ∷ byte_3 l ∷ payload

module _ (l : Layout) (v : IsLayout l) where
  word : bit_or (byte_1 l <<< 8) (byte_2 l) ≡ byte_1 l * 256 + byte_2 l
  word = bit_or_fields 8 (byte_1 l) (byte_2 l) (omega arith)

  pid_read : bit_and (bit_or (byte_1 l <<< 8) (byte_2 l)) 0x1FFF ≡ l.pid
  pid_read = rw word (omega (arith, bit_and_mask 13 (byte_1 l * 256 + byte_2 l)))

  control_read : bit_and (byte_3 l >>> 4) 0x3 ≡ l.control
  control_read = omega (arith, bit_and_mask 2 (byte_3 l / 16))

  counter_read : bit_and (byte_3 l) 0x3 ≡ l.counter % 4
  counter_read = omega (arith, bit_and_mask 2 (byte_3 l))

  -- From a packet laid out by the standard `ts_proc` reads the error and unit start flags, the PID
  -- and the adaptation field control as they are, and the low two bits of the four of the
  -- continuity counter; the cursor is behind the four bytes.
  pub read_header-encode :
      (payload : Bytes) (len : ℕ)
      → 4 ≤ len
      → len < 256
      → read_header (record { ptr = encode l payload; left = len })
        ≡ some (
          record {
            transport_error_indicator = l.error;
            payload_unit_start_indicator = l.start;
            pid = l.pid;
            adaptation_field_control = l.control;
            continuity_counter = l.counter % 4;
          },
          record { ptr = payload; left = len - 4 },
        )
  unfolding read_header read16
  read_header-encode payload len long byte = ground (arith, pid_read, control_read, counter_read, v)
