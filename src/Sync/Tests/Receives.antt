-- ===== src/Sync/Tests/Receives.antt =====
-- Text frames received in concrete states (websocket/src/sync/client.rs).
use websocket_std.Core.Net.{got}
use websocket_std.WsBasic.Header
use websocket_std.WsBasic.Header.{length_bytes, text}
use websocket_std.WsBasic.Frame
use websocket_std.Sync.Tcp.{TcpStream}
use websocket_std.Sync.EventLoop.{event_loop}
use websocket_std.Sync.EventLoop.Delivery.{event_loop-text}
use websocket_std.Sync.Tests.{socket}
use websocket_std.Prelude.{◌++◌, some, arith}
use websocket_std.Prelude.{ℕ, ◌≡◌, refl, [], ◌∷◌, none, true, if◌then◌else◌}
use websocket_std.Outcome.{ok, err, decoding_from_utf8}
use websocket_std.Std.Utf8.{is_utf8}
use websocket_std.WsBasic.Header.{fin, noflag}
use websocket_std.WsBasic.Frame.{new_data}
use websocket_std.Sync.State.{State, on_text, opened}
use websocket_std.Sync.Input.{handle_recv_frame}
use websocket_std.Sync.Input.TextFrames.{handle_recv_frame-fin, handle_recv_frame-fragment}
use websocket_std.WsBasic.Frame.{get_data}
use websocket_std.Sync.Tests.{test_deps, silent, socket, at, hi, frame, frame-data_kind}

abbrev listening : State ℕ
listening = record (at opened socket) {
  client = record (at opened socket).client { recv_data = [] };
}

hi_utf8 : is_utf8 hi ≡ true
unfolding is_utf8
hi_utf8 = refl

handle_recv_frame-fin_example : handle_recv_frame test_deps silent (frame fin) listening ≡ (
    if is_utf8 (get_data (frame fin))
    then (ok tt, silent 1 (on_text (get_data (frame fin))) none listening)
    else (err decoding_from_utf8, listening))
unfolding new_data
handle_recv_frame-fin_example =
    handle_recv_frame-fin test_deps silent (frame fin) listening (frame-data_kind fin) 1 refl refl
      refl

handle_recv_frame-fragment_example :
    handle_recv_frame test_deps silent (frame noflag) listening ≡ (ok tt, listening)
unfolding new_data
handle_recv_frame-fragment_example =
    handle_recv_frame-fragment test_deps silent (frame noflag) listening (frame-data_kind noflag) 1
      refl 0x68 (0x69 ∷ []) refl refl refl hi_utf8

-- The first byte of "hi" in a frame has come; the rest, and a byte of the next frame, are to come.
abbrev arriving : TcpStream
arriving = record socket { incoming = got (2 ∷ 0x68 ∷ 0x69 ∷ 7 ∷ []) ∷ [] }

abbrev partial : State ℕ
partial = record (at opened arriving) {
  client = record (at opened arriving).client {
    recv_storage = 0x81 ∷ [];
    recv_data = [];
    input_events = [];
    output_events = [];
  };
}

partial_whole : (0x81 ∷ []) ++ 2 ∷ 0x68 ∷ 0x69 ∷ 7 ∷ [] ≡ Frame.serialize (frame fin) ++ 7 ∷ []
unfolding Frame.serialize Header.serialize length_bytes new_data
partial_whole = refl

-- What is left of it.
abbrev arrived : State ℕ
arrived = record partial {
  client = record partial.client {
    recv_storage = 7 ∷ [];
    stream = some (record arriving { incoming = [] });
  };
}

event_loop-text_example :
    event_loop test_deps silent partial
    ≡ (ok tt, silent 1 (on_text hi) partial.client.cb_data arrived)
event_loop-text_example =
    event_loop-text test_deps silent text hi (7 ∷ []) 2 (0x68 ∷ 0x69 ∷ 7 ∷ []) arriving [] 1 partial
      refl (omega arith) hi_utf8 refl refl refl (omega arith) partial_whole refl refl refl refl
