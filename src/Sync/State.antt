-- ===== src/Sync/State.antt =====
-- The state of the client (websocket/src/sync/client.rs) and of what it runs in. A callback is a
-- function pointer, a number here; its data has the type `T`.
use websocket_std.Prelude.{ℕ, List, [], Option, none, some, Bool, true, false}
use websocket_std.Extension.{Extension}
use websocket_std.Http.Headers.{Text}
use websocket_std.Http.Request.{Request}
use websocket_std.Http.Response.{Response}
use websocket_std.WsBasic.Frame.{Frame}
use websocket_std.Sync.Tcp.{TcpStream}

pub data ConnectionStatus : Type 0 where
  not_init start_init handshake opened client_wants_to_close server_wants_to_close closed :
      ConnectionStatus

pub data Event : Type 0 where
  websocket_data : Frame → Event
  http_response : Response → Event
  http_request : Request → Event
  no_data : Event

unfoldable pub is_websocket_data : Event → Bool
is_websocket_data (websocket_data f) = true
is_websocket_data _ = false

pub data EventIo : Type 0 where
  input output : EventIo

pub data Reason : Type 0 where
  server_close client_close : ℕ → Reason

pub data WsEvent : Type 0 where
  on_connect : Option Text → WsEvent
  on_text : Text → WsEvent
  on_close : Reason → WsEvent

pub record Config (T : Type 0) : Type 0 where
  pub callback : Option ℕ
  pub cb_data : Option T
  pub protocols : Option (List Text)

-- `extensions` is never filled, and `close_iters` never changed.
pub record WsClient (T : Type 0) : Type 0 where
  pub host : Text
  pub port : ℕ
  pub path : Text
  pub connection_status : ConnectionStatus
  pub message_size : ℕ  -- u64
  pub timeout : ℕ  -- seconds
  pub stream : Option TcpStream
  pub recv_storage : List ℕ
  pub recv_data : List ℕ
  pub cb_data : Option T
  pub callback : Option ℕ
  pub protocol : Option Text
  pub acceptable_protocols : Option (List Text)
  pub extensions : List Extension
  pub input_events : List Event
  pub output_events : List Event
  pub websocket_key : Text
  pub close_iters : ℕ

-- How `TcpStream::connect` ends, and whether `set_nonblocking` succeeds then.
pub data Connect : Type 0 where
  refused : Connect
  connected : TcpStream → Bool → Connect

-- Whether the callbacks have returned so far, or one has not, or has panicked. The program does not go
-- on behind such a call; here the handler that made it does, and who called `event_loop` looks.
pub data Progress : Type 0 where
  going hung unwinding : Progress

-- The client and what it runs in: the connections to come, the calls of `getrandom` so far, the cells
-- that callbacks and the program share (the number behind each `Rc<RefCell<..>>` or
-- `Arc<Mutex<..>>`), what has been printed, how the callbacks have fared, and the sockets that the
-- client has dropped after the closing handshake, with what went out on them.
pub record State (T : Type 0) : Type 0 where
  pub client : WsClient T
  pub connects : List Connect
  pub draws : ℕ
  pub cells : List ℕ
  pub printed : Text
  pub progress : Progress
  pub given_up : List TcpStream

-- What the callback behind a pointer does, given the event and its data: it may use the client.
abbrev pub React : Type 0 → Type 0
React T = ℕ → WsEvent → Option T → State T → State T

abbrev pub default_message_size : ℕ
default_message_size = 1024

abbrev pub default_timeout : ℕ
default_timeout = 30

abbrev pub switching_protocols : ℕ
switching_protocols = 101

module _ {T : Type 0} where
  unfoldable pub new : WsClient T
  new = record {
    host = [];
    port = 0;
    path = [];
    connection_status = not_init;
    message_size = default_message_size;
    timeout = default_timeout;
    stream = none;
    recv_storage = [];
    recv_data = [];
    cb_data = none;
    callback = none;
    protocol = none;
    acceptable_protocols = none;
    extensions = [];
    input_events = [];
    output_events = [];
    websocket_key = [];
    close_iters = 0;
  }

  abbrev configure : Option (Config T) → WsClient T → WsClient T
  configure none c = c
  configure (some conf) c = record c {
    cb_data = conf.cb_data;
    callback = conf.callback;
    acceptable_protocols = conf.protocols;
  }

  unfoldable pub init : Text → ℕ → Text → Option (Config T) → WsClient T → WsClient T
  init host port path config c =
      record (configure config (record c { host = host; port = port; path = path })) {
        connection_status = start_init;
      }

  unfoldable pub set_message_size : ℕ → WsClient T → WsClient T
  set_message_size size c = record c { message_size = size }

  unfoldable pub set_timeout : ℕ → WsClient T → WsClient T
  set_timeout timeout c = record c { timeout = timeout }

  -- The protocol that the server accepted.
  unfoldable pub protocol : WsClient T → Option Text
  protocol c = c.protocol
