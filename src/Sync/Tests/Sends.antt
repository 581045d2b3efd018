-- ===== src/Sync/Tests/Sends.antt =====
-- What the client sends, on concrete states (websocket/src/sync/client.rs).
use websocket_std.WsBasic.Frame.{Frame}
use websocket_std.Prelude.{◌*◌, List}
use websocket_std.WsBasic.Frame.{ControlFrame, control_frame, control}
use websocket_std.Core.Net.{would_block}
use websocket_std.Prelude.{
  ℕ, ◌≡◌, refl, List, [], ◌∷◌, ◌++◌, take, Option, none, some, true, false, arith,
}
use websocket_std.Outcome.{ok, panic}
use websocket_std.Std.Utf8.{is_char_boundary}
use websocket_std.Http.Headers.{Text}
use websocket_std.WsBasic.Header.{fin}
use websocket_std.WsBasic.Frame
use websocket_std.WsBasic.Frame.{
  Frame, data_frame, control_frame, new_data, new_control, ControlFrame, kind,
}
use websocket_std.Sync.Tcp.{TcpStream, accepted, blocked}
use websocket_std.Sync.State.{State, Event, websocket_data, handshake, opened}
use websocket_std.Sync.Send.{send}
use websocket_std.Sync.Send.Fragments.{Fragments, send-Fragments}
use websocket_std.Sync.Send.Failures.{send_zero_size, send_inside_character}
use websocket_std.WsBasic.Frame.{data_kind, get_data}
use websocket_std.Sync.Output.{pop_output_event, handle_send_frame}
use websocket_std.Sync.Output.Sending.{handle_send_frame-resends}
use websocket_std.Sync.Output.Queue.{Took, pop_output_event-Took}
use websocket_std.WsBasic.Frame.{control}
use websocket_std.Sync.Tests.{test_deps, silent, socket, at, hi, frame, frame-data_kind, hi-Cuts}

-- A client that sends one byte in a frame.
abbrev by_bytes : State ℕ
by_bytes = record (at opened socket) {
  client = record (at opened socket).client { message_size = 1; output_events = [] };
}

send-Fragments_example :
    (n : ℕ) × (events : List Event) × (send test_deps 3 hi by_bytes
      ≡ some (
        ok tt,
        record by_bytes {
          draws = n;
          client = record by_bytes.client { output_events = [] ++ events };
        },
      ))
    × Fragments 1 true hi events
send-Fragments_example =
    send-Fragments test_deps hi by_bytes (omega arith) (omega arith) (omega arith) hi-Cuts refl

abbrev by_nothing : State ℕ
by_nothing = record (at opened socket) {
  client = record (at opened socket).client { message_size = 0 };
}

send_zero_size_example : send test_deps 1000 hi by_nothing ≡ none
send_zero_size_example = send_zero_size test_deps hi 1000 by_nothing refl (omega arith) refl

-- "aé": the second cut falls inside the second character.
abbrev accented : Text
accented = 97 ∷ 0xc3 ∷ 0xa9 ∷ []

inside : is_char_boundary accented (2 * 1) ≡ false
unfolding is_char_boundary
inside = refl

send_inside_character_example :
    (n : ℕ) × (events : List Event) × (send test_deps 4 accented by_bytes
      ≡ some (
        panic,
        record by_bytes {
          draws = n;
          client = record by_bytes.client { output_events = [] ++ events };
        },
      ))
send_inside_character_example =
    send_inside_character test_deps accented 2 by_bytes (omega arith) (omega arith) inside refl

abbrev full : TcpStream
full = record socket { writes = blocked 3 ∷ accepted ∷ [] }

handle_send_frame-resends_example :
    let s = at opened full in
    let queued = pop_output_event (handle_send_frame silent (frame fin) s).1 in
    let bytes = Frame.serialize (frame fin) in
    (queued.0 ≡ ok (some (websocket_data (frame fin))))
    × (handle_send_frame silent (frame fin) queued.1 ≡ (
      ok tt,
      record s {
        client = record s.client {
          stream = some (record full { writes = []; sent = ([] ++ take 3 bytes) ++ bytes });
        };
      },
    ))
handle_send_frame-resends_example =
    handle_send_frame-resends silent (frame fin) (at opened full) full refl [] 3
      (frame-data_kind fin) refl refl

-- A frame that was sent before the handshake has ended.
abbrev early : State ℕ
early = record (at handshake socket) {
  client = record (at handshake socket).client { output_events = websocket_data (frame fin) ∷ [] };
}

pop_output_event-Took_example :
    (event : Option Event) × ((pop_output_event early).0 ≡ ok event)
    × Took handshake early.client.output_events event
        (pop_output_event early).1.client.output_events
pop_output_event-Took_example = pop_output_event-Took early

-- "hi" is queued, and the server says nothing.
abbrev free : TcpStream
free = record socket { incoming = would_block ∷ []; writes = accepted ∷ [] }

abbrev queued : State ℕ
queued = record (at opened free) {
  client = record (at opened free).client {
    recv_storage = [];
    input_events = [];
    output_events = websocket_data (frame fin) ∷ [];
  };
}
