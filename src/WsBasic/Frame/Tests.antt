-- ===== src/WsBasic/Frame/Tests.antt =====
-- Frames of websocket/src/ws_basic/frame.rs on concrete bytes.
use websocket_std.Prelude.{
  ℕ, ◌-◌, ◌≡◌, ◌↔◌, refl, List, [], ◌∷◌, ◌++◌, take, length, none, some, true, false, inl, arith,
  bit_or,
}
use mathlib.Core.List.{replicate}
use websocket_std.Core.Binary.{IsBytes}
use websocket_std.WsBasic.Header.Codes.{is_known}
use websocket_std.Outcome.{ok, panic, err, invalid_frame}
use websocket_std.WsBasic.Bitflags.{documented}
use websocket_std.WsBasic.Mask.{Mask, IsMask}
use websocket_std.WsBasic.Frame.{
  data_frame, control_frame, new_data, new_control, serialize, mask_loop, bytes_to_frame,
}
use websocket_std.WsBasic.Frame.Bounds.{Taken, bytes_to_frame-Taken}
use websocket_std.WsBasic.Frame.RoundTrip.{
  bytes_to_frame-serialize_data, bytes_to_frame-serialize_masked,
}
use websocket_std.WsBasic.Frame.ControlRoundTrip.{bytes_to_frame-serialize_control}
use websocket_std.WsBasic.Frame.Panics.{
  bytes_to_frame_short_data, bytes_to_frame_cut_length, bytes_to_frame_short_control,
}
use websocket_std.WsBasic.Frame.Stream.{bytes_to_frame-append, bytes_to_frame-invalid}
use websocket_std.WsBasic.Frame.Server.{server_read, server_read-serialize}

abbrev key : Mask
key = 1 ∷ 2 ∷ 3 ∷ 4 ∷ []

key-IsMask : IsMask key
key-IsMask = record {
  four = refl;
  bytes = (omega arith, (omega arith, (omega arith, (omega arith, tt))));
}

-- A text frame "hi", and one byte of the next.
abbrev hi : List ℕ
hi = 0x68 ∷ 0x69 ∷ []

hi-IsBytes : IsBytes hi
hi-IsBytes = (omega arith, (omega arith, tt))

server_read-serialize_example :
    server_read (serialize (data_frame (new_data 128 1 hi true none key)) ++ 7 ∷ [])
    ≡ some (record { first = bit_or 128 1; payload = hi; rest = 7 ∷ [] })
server_read-serialize_example =
    server_read-serialize 128 1 key hi (7 ∷ []) key-IsMask hi-IsBytes (omega arith)

bytes_to_frame-serialize_data_example :
    let f = data_frame (new_data 128 1 hi false none []) in
    bytes_to_frame documented (serialize f ++ 7 ∷ []) ≡ ok (some (f, length (serialize f)))
bytes_to_frame-serialize_data_example =
    bytes_to_frame-serialize_data documented 128 1 (omega arith, refl) hi (7 ∷ []) refl
      (omega arith)

bytes_to_frame-serialize_masked_example :
    let f = data_frame (new_data 128 1 hi true (some key) []) in
    let seen = take 2 (key ++ mask_loop key 0 hi) in
    bytes_to_frame documented (serialize f ++ 7 ∷ [])
    ≡ ok (some (data_frame (new_data 128 1 seen false none []), length (serialize f) - 4))
bytes_to_frame-serialize_masked_example =
    bytes_to_frame-serialize_masked documented 128 1 (omega arith, refl) key hi (7 ∷ []) refl refl
      (omega arith)

bytes_to_frame-serialize_control_example :
    let f = control_frame (new_control 128 8 (some 1000) hi false none []) in
    bytes_to_frame documented (serialize f ++ 7 ∷ []) ≡ ok (some (f, length (serialize f)))
bytes_to_frame-serialize_control_example =
    bytes_to_frame-serialize_control documented 128 8 (omega arith, refl) 1000 hi (7 ∷ []) refl refl
      (omega arith) (omega arith) (omega arith)

abbrev long_reason : List ℕ
long_reason = replicate 124 b'x'

bytes_to_frame_cut_length_example : bytes_to_frame documented (0x81 ∷ 126 ∷ 1 ∷ []) ≡ panic
bytes_to_frame_cut_length_example =
    bytes_to_frame_cut_length documented 0x81 126 (1 ∷ []) (omega arith) (omega arith) refl
      (inl (refl, omega arith))

bytes_to_frame_short_control_example : bytes_to_frame documented (0x89 ∷ 0 ∷ []) ≡ panic
bytes_to_frame_short_control_example =
    bytes_to_frame_short_control documented 0x89 0 [] (omega arith) (omega arith) refl refl
      (omega arith) (omega arith)

-- A whole frame, parsed.
parsed :
    bytes_to_frame documented (0x81 ∷ 2 ∷ hi)
    ≡ ok (some (data_frame (new_data 128 1 hi false none []), 4))
parsed =
    bytes_to_frame_short_data documented 0x81 2 hi (omega arith) (omega arith) refl (omega arith)

octets : IsBytes (0x81 ∷ 2 ∷ hi)
octets = (omega arith, (omega arith, hi-IsBytes))

bytes_to_frame-append_example :
    bytes_to_frame documented ((0x81 ∷ 2 ∷ hi) ++ 7 ∷ 8 ∷ [])
    ≡ ok (some (data_frame (new_data 128 1 hi false none []), 4))
bytes_to_frame-append_example =
    bytes_to_frame-append documented (0x81 ∷ 2 ∷ hi) (7 ∷ 8 ∷ []) octets parsed

bytes_to_frame-Taken_example :
    Taken 128 1 4 (0x81 ∷ 2 ∷ hi) (data_frame (new_data 128 1 hi false none []))
bytes_to_frame-Taken_example = bytes_to_frame-Taken documented 0x81 2 hi octets (omega arith) parsed

bytes_to_frame-invalid_example :
    (bytes_to_frame documented (0x84 ∷ 0 ∷ []) ≡ err invalid_frame) ↔ (is_known 4 ≡ false)
bytes_to_frame-invalid_example =
    bytes_to_frame-invalid documented 0x84 0 [] (omega arith) (omega arith)
