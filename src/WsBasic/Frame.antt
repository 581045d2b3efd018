-- ===== src/WsBasic/Frame.antt =====
-- websocket/src/ws_basic/frame.rs. The trait `Frame` has two implementations, the two constructors
-- of `Frame` here. `usize` has 64 bits.
pub mod Masking
pub mod Parse
pub mod Written
pub mod Bodies
pub mod RoundTrip
pub mod ControlRoundTrip
pub mod Panics
pub mod Bounds
pub mod Stream
pub mod Server
pub mod Messages
pub mod Tests
use websocket_std.Prelude.{
  ℕ, suc, ◌+◌, ◌-◌, ◌%◌, ◌^◌, List, [], ◌∷◌, ◌++◌, length, take, get_or, Option, none, some, Bool,
  true, false, ◌||◌, ◌==◌, ltb, leb, if◌then◌else◌, bit_and, bit_xor,
}
use websocket_std.Outcome.{WebSocketResult, ok, err, invalid_frame, ◌>>=◌, slice, index, unwrap}
use websocket_std.Core.Binary.{to_be_bytes, bytes_to_u16, bytes_to_u64}
use websocket_std.WsBasic.Bitflags.{Bitflags}
use websocket_std.WsBasic.Mask.{Mask}
use websocket_std.WsBasic.Header
use websocket_std.WsBasic.Header.{
  Header, continuation, text, binary, close, ping, pong, opcode_from_bits, flag_from_bits,
}

pub data FrameKind : Type 0 where
  data_kind control not_define : FrameKind

pub record DataFrame : Type 0 where
  pub header : Header
  pub payload : List ℕ

pub record ControlFrame : Type 0 where
  pub header : Header
  pub payload : List ℕ
  pub status_code : Option ℕ

pub data Frame : Type 0 where
  data_frame : DataFrame → Frame
  control_frame : ControlFrame → Frame

abbrev pub get_data : Frame → List ℕ
get_data (data_frame f) = f.payload
get_data (control_frame f) = f.payload

abbrev pub get_header : Frame → Header
get_header (data_frame f) = f.header
get_header (control_frame f) = f.header

abbrev kind_of : ℕ → FrameKind
kind_of opcode =
    if opcode == close || opcode == ping || opcode == pong
    then control
    else if opcode == binary || opcode == text || opcode == continuation
    then data_kind
    else not_define

unfoldable pub kind : Frame → FrameKind
kind f = kind_of (Header.get_opcode (get_header f))

-- The loop over the payload: `i` runs round the mask.
unfoldable pub mask_loop : Mask → ℕ → List ℕ → List ℕ
mask_loop mask i [] = []
mask_loop mask i (byte ∷ bytes) =
    bit_xor byte (get_or mask i 0)
    ∷ mask_loop mask (if leb (length mask) (i + 1) then 0 else i + 1) bytes

abbrev mask_data : Option Mask → List ℕ → List ℕ
mask_data none bytes = bytes
mask_data (some mask) bytes = mask_loop mask 0 bytes

unfoldable pub serialize : Frame → List ℕ
serialize f =
    Header.serialize (get_header f) ++ mask_data (Header.get_mask (get_header f)) (get_data f)

-- `fresh` is the mask that `gen_mask` gives.
unfoldable pub get_mask : Bool → Option Mask → Mask → Option Mask
get_mask mask_frame (some m) fresh = some m
get_mask mask_frame none fresh = if mask_frame then some fresh else none

unfoldable pub new_data : ℕ → ℕ → List ℕ → Bool → Option Mask → Mask → DataFrame
unfolding get_mask
new_data flag opcode payload mask_frame mask fresh = record {
  header = Header.new flag opcode (get_mask mask_frame mask fresh) (length payload);
  payload = payload;
}

abbrev status_len : Option ℕ → ℕ
status_len none = 0
status_len (some status) = 2

abbrev status_bytes : Option ℕ → List ℕ
status_bytes none = []
status_bytes (some status) = to_be_bytes 2 status

-- Where the payload is cut, it is longer than the slice.
unfoldable pub new_control : ℕ → ℕ → Option ℕ → List ℕ → Bool → Option Mask → Mask → ControlFrame
unfolding get_mask
new_control flag opcode status payload mask_frame mask fresh =
    let long = ltb 125 (length payload + status_len status) in
    record {
      header =
          Header.new flag opcode (get_mask mask_frame mask fresh)
            (if long then 125 else length payload + status_len status);
      payload =
          status_bytes status ++ (if long then take (124 - status_len status) payload else payload);
      status_code = status;
    }

abbrev pub get_status_code : ControlFrame → Option ℕ
get_status_code f = f.status_code

-- The payload length and the index behind it.
unfoldable pub payload_start : ℕ → List ℕ → WebSocketResult (ℕ × ℕ)
payload_start b1 bytes =
    let len = bit_and 0x7f b1 in
    if len == 126
    then slice 2 4 bytes >>= (λ s. unwrap (bytes_to_u16 s) >>= λ n. ok (n, 4))
    else if len == 127
    then slice 2 10 bytes >>= (λ s. unwrap (bytes_to_u64 s) >>= λ n. ok (n, 10))
    else ok (len, 2)

-- The mask key, and the index behind it.
unfoldable pub read_mask : Bool → List ℕ → ℕ → WebSocketResult (Option Mask × ℕ)
read_mask false bytes i = ok (none, i)
read_mask true bytes i = do
  m0 ← index bytes (i + 0)
  m1 ← index bytes (i + 1)
  m2 ← index bytes (i + 2)
  m3 ← index bytes (i + 3)
  ok (some (m0 ∷ m1 ∷ m2 ∷ m3 ∷ []), i + 4)

-- Sums of `u64` and `usize` wrap, as they do where overflow checks are off.
abbrev pub add64 : ℕ → ℕ → ℕ
add64 a b = (a + b) % 2 ^ 64

abbrev pub is_data : ℕ → Bool
is_data code = code == text || code == binary || code == continuation

unfoldable pub read_data : ℕ → ℕ → Option Mask → ℕ → ℕ → List ℕ → WebSocketResult (Frame × ℕ)
read_data flag code mask i len bytes = do
  payload ← slice i (add64 len i) bytes
  ok (data_frame (new_data flag code payload false mask []), add64 i len)

unfoldable pub read_control : ℕ → ℕ → Option Mask → ℕ → ℕ → List ℕ → WebSocketResult (Frame × ℕ)
read_control flag code mask i len bytes = do
  s ← slice i (i + 2) bytes
  status ← unwrap (bytes_to_u16 s)
  payload ← slice (i + 2) (add64 len 2) bytes
  ok (control_frame (new_control flag code (some status) payload false mask []), add64 i len)

-- From the mask on: the frame, if it is there as a whole.
unfoldable pub read_body : ℕ → ℕ → ℕ → ℕ → ℕ → List ℕ → WebSocketResult (Option (Frame × ℕ))
read_body flag code b1 len i bytes = if ltb (length bytes) (add64 len i) then ok none else do
  (mask, j) ← read_mask (bit_and 0x80 b1 == 1) bytes i
  f ←
      if is_data code
      then read_data flag code mask j len bytes
      else read_control flag code mask j len bytes
  ok (some f)

unfoldable pub read_frame : Bitflags → ℕ → ℕ → List ℕ → WebSocketResult (Option (Frame × ℕ))
read_frame bf b0 b1 bytes = elim (flag_from_bits bf (bit_and b0 0xf0)) [
  | none ↦ err invalid_frame
  | some flag ↦ elim (opcode_from_bits bf (bit_and b0 0x1f)) [
    | none ↦ err invalid_frame
    | some code ↦ do (len, i) ← payload_start b1 bytes; read_body flag code b1 len i bytes
  ]
]

-- The frame at the front of the bytes and the number of bytes that it takes; `none` if more bytes
-- have to come.
unfoldable pub bytes_to_frame : Bitflags → List ℕ → WebSocketResult (Option (Frame × ℕ))
bytes_to_frame bf [] = ok none
bytes_to_frame bf (b0 ∷ []) = ok none
bytes_to_frame bf (b0 ∷ b1 ∷ rest) = read_frame bf b0 b1 (b0 ∷ b1 ∷ rest)
