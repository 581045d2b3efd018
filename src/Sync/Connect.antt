-- ===== src/Sync/Connect.antt =====
-- `WSClient::start_init` and `WSClient::handle_recv_http_response` (websocket/src/sync/client.rs):
-- the opening handshake.
pub mod Handshake
pub mod Opening
use websocket_std.Prelude.{
  ℕ, ◌+◌, ◌-◌, ◌%◌, ◌^◌, List, [], ◌∷◌, ◌++◌, length, Option, none, some, Bool, true, false, not,
  ◌&&◌, ◌||◌, ◌==◌, if◌then◌else◌,
}
use websocket_std.Outcome.{
  WebSocketResult, WebSocketError, ok, err, panic, slice, unreachable_host, hand_shake, io_error,
}
use websocket_std.Outcome.Display.{from_io_error, io}
use websocket_std.Std.Str.{codes}
use websocket_std.Http.Headers.{Text, Headers, insert}
use websocket_std.Http.Request
use websocket_std.Http.Request.{Request, get}
use websocket_std.Http.Response
use websocket_std.Http.Response.{Response}
use websocket_std.Sync.Deps.{Deps, gen_key, verify_key}
use websocket_std.Sync.State.{
  State, WsClient, Connect, refused, connected, Event, http_request, WsEvent, on_connect, React,
  ConnectionStatus, handshake, opened, switching_protocols,
}
use websocket_std.Sync.Exec.{
  Exec, pure, fail, lift, gets, ◌>>=◌, ◌>>◌, modify, set_status, push_front_output, notify,
}
use websocket_std.Sync.Tcp.{TcpStream}

abbrev pub sec_websocket_accept : Text
sec_websocket_accept = codes "Sec-WebSocket-Accept"

abbrev pub sec_websocket_protocol : Text
sec_websocket_protocol = codes "Sec-WebSocket-Protocol"

unfoldable pub base_headers : Text → Headers
base_headers key =
    (codes "Upgrade", codes "websocket")
    ∷ (codes "Connection", codes "Upgrade")
    ∷ (codes "Sec-WebSocket-Key", key)
    ∷ (codes "Sec-WebSocket-Version", codes "13")
    ∷ (codes "User-agent", codes "rust-websocket-std")
    ∷ []

-- The protocols, each with a comma behind it.
unfoldable pub protocols_value : List Text → Text
protocols_value [] = []
protocols_value (p ∷ ps) = p ++ (codes ", " ++ protocols_value ps)

-- The last comma is cut off, at `len - 2`, which wraps.
unfoldable pub add_protocols : Option (List Text) → Headers → WebSocketResult Headers
add_protocols none headers = ok headers
add_protocols (some protocols) headers =
    let value = protocols_value protocols in
    elim (slice {F = WebSocketError} 0 ((length value + 2 ^ 64 - 2) % 2 ^ 64) value) [
      | ok v ↦ ok (insert sec_websocket_protocol v headers)
      | err e ↦ err e
      | panic ↦ panic
    ]

abbrev next_connect : List Connect → Connect × List Connect
next_connect [] = (refused, [])
next_connect (c ∷ rest) = (c, rest)

abbrev pub is_switching : Response → Bool
is_switching response = not (
    Response.get_status_code response == 0
    || not (Response.get_status_code response == switching_protocols))

module _ {T : Type 0} (deps : Deps) where
  abbrev connect : Exec T Connect
  connect s = let (c, rest) = next_connect s.connects in (ok c, record s { connects = rest })

  -- `gen_key`.
  abbrev draw_key : Exec T Text
  draw_key s = (ok (gen_key deps s.draws).0, record s { draws = (gen_key deps s.draws).1 })

  -- `set_nonblocking(true)?`, and the socket is kept.
  unfoldable pub set_stream : TcpStream → Bool → Exec T (Unit {0})
  set_stream stream false = fail (from_io_error io)
  set_stream stream true = do modify (λ c. record c { stream = some stream }); set_status handshake

  -- With a socket: `set_nonblocking` may fail, and then the socket is dropped.
  unfoldable pub open_stream : TcpStream → Bool → Exec T (Unit {0})
  open_stream stream nonblocking = do
    key ← draw_key
    protocols ← gets (λ c. c.acceptable_protocols)
    headers ← lift (add_protocols protocols (base_headers key))
    path ← gets (λ c. c.path)
    push_front_output (http_request (Request.new get path (codes "HTTP/1.1") (some headers)))
    modify (λ c. record c { websocket_key = key })
    set_stream stream nonblocking

  unfoldable pub connect_with : Connect → Exec T (Unit {0})
  connect_with refused = fail unreachable_host
  connect_with (connected stream nonblocking) = open_stream stream nonblocking

  unfoldable pub start_init : Exec T (Unit {0})
  start_init = connect >>= connect_with

  -- The response is the one that was asked for.
  unfoldable pub open_connection : React T → Response → Exec T (Unit {0})
  open_connection react response = do
    modify (λ c. record c {
      protocol = Response.header deps.to_lowercase response sec_websocket_protocol;
    })
    set_status opened
    notify react (on_connect response.body)

  -- In the state HANDSHAKE.
  unfoldable pub accept_response : React T → Response → Option Text → Exec T (Unit {0})
  accept_response react response none = fail hand_shake
  accept_response react response (some accept) = do
    key ← gets (λ c. c.websocket_key)
    if verify_key deps key accept && is_switching response
        then open_connection react response
        else fail hand_shake

  unfoldable pub handle_response_at : ConnectionStatus → React T → Response → Exec T (Unit {0})
  handle_response_at handshake react response =
      accept_response react response
        (Response.header deps.to_lowercase response sec_websocket_accept)
  handle_response_at _ react response = pure tt

  unfoldable pub handle_recv_http_response : React T → Response → Exec T (Unit {0})
  handle_recv_http_response react response s =
      handle_response_at s.client.connection_status react response s
