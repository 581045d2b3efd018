-- ===== src/WsBasic/Header.antt =====
-- websocket/src/ws_basic/header.rs. `OPCODE` and `FLAG` are sets of bits.
pub mod Codes
use websocket_std.Prelude.{
  ℕ, ◌%◌, ◌^◌, List, [], ◌∷◌, ◌++◌, Option, none, some, ltb, leb, if◌then◌else◌, bit_or,
}
use websocket_std.Core.Binary.{to_be_bytes}
use websocket_std.WsBasic.Bitflags.{Bitflags, union}
use websocket_std.WsBasic.Mask.{Mask}

abbrev pub continuation : ℕ
continuation = 0x0

abbrev pub text : ℕ
text = 0x1

abbrev pub binary : ℕ
binary = 0x2

abbrev pub close : ℕ
close = 0x8

abbrev pub ping : ℕ
ping = 0x9

abbrev pub pong : ℕ
pong = 0xa

unfoldable pub opcode_from_bits : Bitflags → ℕ → Option ℕ
unfolding union
opcode_from_bits bf bits =
    bf.from_bits (union (continuation ∷ text ∷ binary ∷ close ∷ ping ∷ pong ∷ [])) bits

abbrev pub fin : ℕ
fin = 0x80

abbrev pub noflag : ℕ
noflag = 0x00

abbrev pub rsv1 : ℕ
rsv1 = 0x40

abbrev pub rsv2 : ℕ
rsv2 = 0x20

abbrev pub rsv3 : ℕ
rsv3 = 0x10

unfoldable pub flag_from_bits : Bitflags → ℕ → Option ℕ
unfolding union
flag_from_bits bf bits = bf.from_bits (union (fin ∷ noflag ∷ rsv1 ∷ rsv2 ∷ rsv3 ∷ [])) bits

pub record Header : Type 0 where
  pub flag : ℕ
  pub code : ℕ
  pub mask_key : Option Mask
  pub payload_len : ℕ  -- u64

abbrev pub new : ℕ → ℕ → Option Mask → ℕ → Header
new flag code mask_key payload_len = record {
  flag = flag;
  code = code;
  mask_key = mask_key;
  payload_len = payload_len;
}

abbrev pub get_mask : Header → Option Mask
get_mask h = h.mask_key

abbrev pub get_opcode : Header → ℕ
get_opcode h = h.code

abbrev pub get_flag : Header → ℕ
get_flag h = h.flag

abbrev pub mask_bit : Option Mask → ℕ
mask_bit none = 0x00
mask_bit (some m) = 0x80

abbrev pub mask_bytes : Option Mask → List ℕ
mask_bytes none = []
mask_bytes (some m) = m

-- The second byte, and the long form of the length.
unfoldable pub length_bytes : Option Mask → ℕ → List ℕ
length_bytes mask len =
    if ltb len 125
    then bit_or (mask_bit mask) (len % 256) ∷ []
    else if leb len 65535
    then bit_or (mask_bit mask) 126 ∷ to_be_bytes 2 (len % 2 ^ 16)
    else bit_or (mask_bit mask) 127 ∷ to_be_bytes 8 len

unfoldable pub serialize : Header → List ℕ
serialize h =
    bit_or h.flag h.code ∷ (length_bytes h.mask_key h.payload_len ++ mask_bytes h.mask_key)
