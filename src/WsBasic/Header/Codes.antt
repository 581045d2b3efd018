-- ===== src/WsBasic/Header/Codes.antt =====
-- Which bits of a frame's first byte websocket/src/ws_basic/header.rs takes for a flag and a code.
use websocket_std.Prelude.{
  ℕ, ◌*◌, ◌/◌, ◌%◌, ◌<◌, ◌≡◌, refl, none, some, Bool, ◌&&◌, ◌||◌, leb, ◌==◌, if◌then◌else◌, bit_and,
  arith,
}
use websocket_std.Prelude.Bits.{same_row, same_row_at, bit_and_flag, bit_and_code}
use websocket_std.WsBasic.Bitflags.{Bitflags}
use websocket_std.WsBasic.Header.{flag_from_bits, opcode_from_bits}

-- The unions of the declared codes: those of RFC 6455, and 3 and 11 besides.
abbrev pub is_known : ℕ → Bool
is_known c = leb c 3 || leb 8 c && leb c 11

abbrev bit : Bool → ℕ
bit b = if b then 1 else 0

flag_fixed : (b : ℕ) → b < 256 → bit_and (bit_and b 0xf0) 0xf0 ≡ bit_and b 0xf0
unfolding same_row
flag_fixed = same_row_at _ _ 256 refl

known_fixed : (c : ℕ) → c < 32 → bit (bit_and c 0x0b == c) ≡ bit (is_known c)
unfolding same_row
known_fixed = same_row_at _ _ 32 refl

module _ (bf : Bitflags) where
  pub flag_from_bits-byte :
      (b : ℕ) → b < 256 → flag_from_bits bf (bit_and b 0xf0) ≡ some (b / 16 * 16)
  unfolding flag_from_bits
  flag_from_bits-byte b h =
      ground (arith, bf.from_bits_lem 0xf0 (bit_and b 0xf0), flag_fixed b, bit_and_flag b)

  pub opcode_from_bits-byte :
      (b : ℕ)
      → b < 256
      → opcode_from_bits bf (bit_and b 0x1f) ≡ (if is_known (b % 32) then some (b % 32) else none)
  unfolding opcode_from_bits
  opcode_from_bits-byte b h =
      rw (bf.from_bits_lem 0x0b (bit_and b 0x1f), bit_and_code b h)
        (ground (arith, known_fixed (b % 32) (omega arith)))
