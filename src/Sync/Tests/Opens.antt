-- ===== src/Sync/Tests/Opens.antt =====
-- The opening handshake on concrete states (websocket/src/sync/client.rs).
use websocket_std.Prelude.{ℕ, ◌≡◌, refl, List, [], ◌∷◌, none, some, true, arith}
use websocket_std.Outcome.{ok, err, hand_shake}
use websocket_std.Std.Str.{codes}
use websocket_std.Http.Headers.{Text}
use websocket_std.Http.Response
use websocket_std.Http.Response.{Response}
use websocket_std.Http.Tests.{ascii_lower}
use websocket_std.Sync.Deps.{guid}
use websocket_std.Sync.State.{State, connected, on_connect, start_init, handshake, opened, new}
use websocket_std.Sync.Connect.{
  sec_websocket_accept, handle_recv_http_response, sec_websocket_protocol,
}
use websocket_std.Sync.Connect.Handshake.{Accepts, handle_recv_http_response-refuses}
use websocket_std.Http.Headers.{lookup}
use websocket_std.Std.Str.{str_eq}
use websocket_std.Prelude.{length, take, drop, ◌≤◌}
use websocket_std.Core.Net.{got}
use websocket_std.Std.Utf8.{from_utf8_lossy_kept}
use websocket_std.Std.Str.Decimal.{decimal}
use websocket_std.Http.Headers.{insert}
use websocket_std.Http.Response.{non_empty}
use websocket_std.Http.Response.Written.{write}
use websocket_std.Http.Response.RoundTrip.{read_back}
use websocket_std.Http.Response.Tests.{accept, answer, answer-IsWritten}
use websocket_std.Sync.Tcp.{TcpStream}
use websocket_std.Sync.EventLoop.{event_loop}
use websocket_std.Sync.EventLoop.Opening.{event_loop-opens}
use websocket_std.Sync.Tests.{test_deps, silent, socket, at}

abbrev response : ℕ → Response
response status = record {
  version = codes "HTTP/1.1";
  status_code = status;
  status_text = codes "x";
  headers = some ((codes "sec-websocket-accept", guid) ∷ []);
  body = none;
}

accepted_response : Accepts test_deps (at handshake socket).client.websocket_key (response 101)
unfolding new Response.header lookup str_eq
accepted_response = record { accept = guid; has_accept = refl; proves_key = refl; switches = refl }

not_switching : ¬ Accepts test_deps (at handshake socket).client.websocket_key (response 200)
not_switching a = let other : 200 ≡ 101 = a.switches in omega (arith, other)

handle_recv_http_response-refuses_example :
    handle_recv_http_response test_deps silent (response 200) (at handshake socket)
    ≡ (err hand_shake, at handshake socket)
handle_recv_http_response-refuses_example =
    handle_recv_http_response-refuses test_deps silent (response 200) (at handshake socket) refl
      not_switching

-- A client that is to connect, with two protocols or none.
abbrev starting : List Text → State ℕ
starting protocols = record (at start_init socket) {
  client = record (at start_init socket).client {
    stream = none;
    path = codes "/";
    acceptable_protocols = some protocols;
  };
  connects = connected socket true ∷ [];
}

abbrev two_protocols : State ℕ
two_protocols = starting (codes "chat" ∷ codes "v2" ∷ [])

-- The answer to the key "c", of which five bytes have come.
abbrev answering : TcpStream
answering = record socket { incoming = got (49 ∷ drop 6 (write answer)) ∷ [] }

abbrev asking : State ℕ
asking = record (at handshake answering) {
  client = record (at handshake answering).client {
    websocket_key = codes "c";
    recv_storage = take 5 (write answer);
    input_events = [];
    output_events = [];
  };
}

answer_fits : length (49 ∷ drop 6 (write answer)) ≤ 1024
unfolding decimal
answer_fits = omega arith

answer_accept :
    Response.header ascii_lower (read_back ascii_lower answer) sec_websocket_accept ≡ some accept
unfolding Response.header lookup insert str_eq
answer_accept = refl

event_loop-opens_example : event_loop test_deps silent asking ≡ (
  ok tt,
  silent 1
      (on_connect (non_empty (from_utf8_lossy_kept answer.body)))
      asking.client.cb_data
      (record asking {
        client = record asking.client {
          connection_status = opened;
          protocol =
              Response.header ascii_lower (read_back ascii_lower answer) sec_websocket_protocol;
          recv_storage = [];
          stream = some (record answering { incoming = [] });
        };
      }),
)
event_loop-opens_example =
    event_loop-opens test_deps silent answer accept 49 (drop 6 (write answer)) answering [] 1 []
      asking answer-IsWritten refl answer_accept refl refl refl refl answer_fits refl refl refl refl
