-- ===== src/Ffi/Common.antt =====
-- websocket/src/ffi/common.rs. A C string is its bytes in front of the final NUL.
pub mod Strings
use websocket_std.Prelude.{
  ℕ, List, [], ◌∷◌, ◌++◌, Option, none, some, Bool, false, ◌||◌, ◌==◌, if◌then◌else◌,
}
use websocket_std.Outcome.{
  Outcome, ok, panic, ◌>>=◌, WebSocketError, unreachable_host, hand_shake, invalid_frame,
  connection_close, decoding_from_utf8, io_error,
}
use websocket_std.Std.Str.{codes, trim}
use websocket_std.Http.Headers.{Text}
use websocket_std.Sync.State.{
  WsEvent, on_connect, on_text, on_close, Reason, server_close, client_close,
}

pub data WsReason : Type 0 where
  server_closed client_closed : ℕ → WsReason

-- `WSEvent_t`: the kind of the event and what its pointer points to.
pub data CEvent : Type 0 where
  c_connect : Option (List ℕ) → CEvent
  c_text : List ℕ → CEvent
  c_close : WsReason → CEvent

pub data WsStatus : Type 0 where
  ok_status unreachable_host_status hand_shake_status invalid_frame_status : WsStatus
  connection_close_status decoding_from_utf8_status io_error_status : WsStatus

unfoldable pub rust_error_to_c_error : WebSocketError → WsStatus
rust_error_to_c_error unreachable_host = unreachable_host_status
rust_error_to_c_error hand_shake = hand_shake_status
rust_error_to_c_error invalid_frame = invalid_frame_status
rust_error_to_c_error connection_close = connection_close_status
rust_error_to_c_error decoding_from_utf8 = decoding_from_utf8_status
rust_error_to_c_error io_error = io_error_status

unfoldable pub has_nul : List ℕ → Bool
has_nul [] = false
has_nul (b ∷ bs) = b == 0 || has_nul bs

-- `CString::new(text).unwrap()`.
unfoldable pub c_string : List ℕ → Outcome ⊥ (List ℕ)
c_string text = if has_nul text then panic else ok text

-- `text.replace('\0', "")`.
unfoldable pub drop_nuls : List ℕ → List ℕ
drop_nuls [] = []
drop_nuls (b ∷ bs) = if b == 0 then drop_nuls bs else b ∷ drop_nuls bs

abbrev pub reason_of : Reason → WsReason
reason_of (server_close status) = server_closed status
reason_of (client_close status) = client_closed status

-- What is printed, and the event.
unfoldable pub from_rust_event : WsEvent → Text × Outcome ⊥ CEvent
from_rust_event (on_connect none) = ([], ok (c_connect none))
from_rust_event (on_connect (some msg)) = (
  codes "[RUST] M: " ++ (msg ++ 10 ∷ []),
  c_string (trim (drop_nuls msg)) >>= λ value. ok (c_connect (some value)),
)
from_rust_event (on_text msg) = ([], c_string msg >>= λ value. ok (c_text value))
from_rust_event (on_close reason) = ([], ok (c_close (reason_of reason)))
