-- ===== src/Sync/Tests.antt =====
-- The client (websocket/src/sync/client.rs) on concrete states, with random numbers that are zeros and
-- digests that are what they digest.
pub mod Sends
pub mod Opens
pub mod Closes
pub mod Pings
pub mod Loops
pub mod Receives
pub mod Channels
pub mod Asks
use websocket_std.Prelude.{
  ℕ, zero, suc, ◌+◌, ◌*◌, ◌^◌, ◌≡◌, ◌≤◌, ◌<◌, ◌≢◌, refl, ap, List, [], ◌∷◌, ◌++◌, length, take,
  Option, none, some, Bool, true, false, arith, ◌==◌, ltb, if◌then◌else◌, inl, inr,
}
use websocket_std.Outcome.{WebSocketResult, ok, err, panic, hand_shake, decoding_from_utf8}
use websocket_std.Core.Binary.{IsByte, IsBytes}
use websocket_std.Std.Str.{codes, find, trim}
use websocket_std.Std.Utf8.{is_utf8, is_char_boundary}
use websocket_std.Http.Headers.{Text, Headers}
use websocket_std.Http.Request
use websocket_std.Http.Response
use websocket_std.Http.Response.{Response}
use websocket_std.Http.Tests.{ascii_lower}
use websocket_std.WsBasic.Bitflags.{documented}
use websocket_std.WsBasic.Mask.{Getrandom, gen_mask}
use websocket_std.WsBasic.Header.{fin, noflag, text, close}
use websocket_std.WsBasic.Frame
use websocket_std.WsBasic.Frame.{
  Frame, data_frame, control_frame, new_data, new_control, ControlFrame, kind,
}
use websocket_std.Core.Net.{got, would_block}
use websocket_std.Sync.Deps.{Deps, guid, gen_key}
use websocket_std.Sync.Tcp.{TcpStream, WriteResult, accepted, blocked}
use websocket_std.Sync.State.{going}
use websocket_std.Sync.State.{
  State, WsClient, Connect, connected, Event, websocket_data, http_request, WsEvent, on_connect,
  on_text, on_close, server_close, client_close, React, ConnectionStatus, start_init, handshake,
  opened, client_wants_to_close, server_wants_to_close, closed, new,
}
use websocket_std.Sync.Exec.{notify}
use websocket_std.Sync.Send.{send}
use websocket_std.Sync.Send.Cuts.{Cuts}
use websocket_std.Sync.Send.Fragments.{Fragments, send-Fragments}
use websocket_std.Sync.Send.Failures.{send_zero_size, send_inside_character}
use websocket_std.Sync.EventLoop.{event_loop}
use websocket_std.Sync.Drop.{drop}
use websocket_std.Sync.Moves.{Moved, Calm, Moved-refl}
use websocket_std.Sync.Moves.Loop.{event_loop-Moved, drop-ends}
use websocket_std.Sync.Connect.{
  start_init as start, handle_recv_http_response, sec_websocket_protocol,
}
use websocket_std.Sync.Connect.Handshake.{
  Accepts, handle_recv_http_response-opens, handle_recv_http_response-refuses,
}
use websocket_std.Sync.Connect.Opening.{start_init-request, start_init_no_protocols}
use websocket_std.Sync.Input.{handle_recv_frame, handle_control_frame}
use websocket_std.Sync.Input.TextFrames.{handle_recv_frame-fin, handle_recv_frame-fragment}
use websocket_std.Http.Headers.{lookup}
use websocket_std.Http.Request.{get}
use websocket_std.Std.Str.{str_eq}
use websocket_std.WsBasic.Frame.{data_kind, get_data}
use websocket_std.Sync.Input.{answer_status}
use websocket_std.Sync.Input.Status.{is_harmless, answer_status_lem}
use websocket_std.Sync.Input.Closing.{answer_frame, handle_control_frame-close_opened}
use websocket_std.Sync.EventLoop.{loop_at}
use websocket_std.Sync.EventLoop.CloseHandshake.{answer, server_closes, client_closes}
use websocket_std.Sync.Output.{pop_output_event, handle_send_frame}
use websocket_std.Sync.Output.Sending.{handle_send_frame-resends, handle_send_frame-closes}
use websocket_std.Sync.Output.Queue.{Took, pop_output_event-Took}
use websocket_std.WsBasic.Frame.{control}
use websocket_std.WsBasic.Header.{pong}
use websocket_std.Ffi.Common.{connection_close_status, rust_error_to_c_error}
use websocket_std.Ffi.Client.{wssclient_loop}
use websocket_std.Ffi.Client.Status.{meaning, wssclient_loop-meaning}
use websocket_std.Extension.{parameter}
use websocket_std.Extension.Arguments.{parameter-key_value}
use websocket_std.Http.Headers.{insert}
use websocket_std.Http.Headers.Lookup.{lookup-insert}

abbrev pub zero_bytes : ℕ → List ℕ
zero_bytes zero = []
zero_bytes (suc k) = 0 ∷ zero_bytes k

pub zero_bytes-length : (k : ℕ) → length (zero_bytes k) ≡ k
zero_bytes-length zero = refl
zero_bytes-length (suc k) = ap suc (zero_bytes-length k)

pub zero_bytes-IsBytes : (k : ℕ) → IsBytes (zero_bytes k)
zero_bytes-IsBytes zero = tt
zero_bytes-IsBytes (suc k) = (omega arith, zero_bytes-IsBytes k)

abbrev pub zeros : Getrandom
zeros = record {
  fill = λ n k. zero_bytes k;
  length-fill = λ n k. zero_bytes-length k;
  fill-IsBytes = λ n k. zero_bytes-IsBytes k;
}

abbrev pub test_deps : Deps
test_deps = record {
  bitflags = documented;
  rand = zeros;
  sha1 = λ bytes. bytes;
  base64_encode = λ bytes. bytes;
  order = λ headers. headers;
  to_lowercase = ascii_lower;
}

-- A callback that leaves the client alone.
abbrev pub silent : React ℕ
silent pointer event data_of s = s

abbrev pub socket : TcpStream
socket = record { incoming = []; writes = []; shutdowns = []; sent = [] }

-- A client with a socket, in a state of the connection.
abbrev pub at : ConnectionStatus → TcpStream → State ℕ
at status stream = record {
  client = record new { connection_status = status; stream = some stream; callback = some 1 };
  connects = [];
  draws = 0;
  cells = [];
  printed = [];
  progress = going;
  given_up = [];
}

abbrev pub hi : Text
hi = codes "hi"

pub silent-Calm : Calm silent
silent-Calm pointer event s = Moved-refl s

-- A text frame "hi", whole or not the last of its message.
abbrev pub frame : ℕ → Frame
frame flag = data_frame (new_data flag text hi false none [])

pub frame-data_kind : (flag : ℕ) → kind (frame flag) ≡ data_kind
unfolding kind new_data
frame-data_kind flag = refl

abbrev pub writable : TcpStream
writable = record socket { writes = accepted ∷ []; shutdowns = true ∷ [] }

pub hi-Cuts : Cuts 1 hi
unfolding is_char_boundary
hi-Cuts zero h = refl
hi-Cuts (suc zero) h = refl
hi-Cuts (suc (suc k)) h = absurd (omega arith)
