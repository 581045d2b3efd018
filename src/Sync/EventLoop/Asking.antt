-- ===== src/Sync/EventLoop/Asking.antt =====
-- `WSClient::event_loop` (websocket/src/sync/client.rs) from the start to the request on the socket, as a
-- server reads it.
use mathlib.Core.List.{Perm}
use websocket_std.Prelude.{
  ℕ, ◌+◌, ◌≡◌, refl, ap, ◌∙◌, List, [], ◌∷◌, ◌++◌, append-nil, some, none, true, All,
}
use websocket_std.Outcome.{ok}
use websocket_std.Core.Net.{ReadResult, would_block, read_into_buffer}
use websocket_std.Std.Str.{codes, str_eq}
use websocket_std.Std.Str.Trim.{AllVisible}
use websocket_std.Std.Str.Visible.{all_between, visible}
use websocket_std.Http.Headers.{Text, Headers, lookup}
use websocket_std.Http.Headers.Order.{Distinct}
use websocket_std.Http.Request
use websocket_std.Http.Request.{Request, get}
use websocket_std.Http.Request.Server.{server_request, server_request-serialize}
use websocket_std.Http.Response.Written.{IsField}
use websocket_std.Sync.Deps.{Deps, gen_key}
use websocket_std.Sync.Tcp.{TcpStream, WriteResult, accepted, read, write_all}
use websocket_std.Sync.State.{
  State, http_request, Connect, connected, React, ConnectionStatus, start_init, handshake,
}
use websocket_std.Sync.Connect.Opening.{
  Wanted, as_list, value_of, Fits, asked_headers, asked_request, start_init-asks,
}
use websocket_std.Sync.Input.{read_bytes_from_socket, read_socket, read_event, insert_input_event}
use websocket_std.Sync.Output.{pop_output_event, handle_send_http_request, try_write}
use websocket_std.Sync.EventLoop.{
  event_loop, loop_at, run_once, pop_input_event, handle_some, handle_event,
}
use websocket_std.Sync.EventLoop.Drained.{turns}

module _ {T : Type 0} (deps : Deps) (react : React T) (stream : TcpStream) (more : List Connect)
    (later : List ReadResult) (writes : List WriteResult) (wanted : Wanted) (s : State T) where
  -- The key that is drawn, and the request with it.
  abbrev key : Text
  key = (gen_key deps s.draws).0

  abbrev request : Request
  request = asked_request s.client.path key wanted

  -- Connected, with the request queued; and when it has gone out.
  abbrev started : State T
  started = record s {
    connects = more;
    draws = s.draws + 1;
    client = record s.client {
      stream = some stream;
      connection_status = handshake;
      websocket_key = key;
      output_events = http_request request ∷ s.client.output_events;
    };
  }

  abbrev pub asked : State T
  asked = record started {
    client = record started.client {
      output_events = s.client.output_events;
      stream = some (record stream {
        incoming = later;
        writes = writes;
        sent = stream.sent ++ Request.serialize deps.order request;
      });
    };
  }

  first_turn :
      s.client.connection_status ≡ start_init
      → s.connects ≡ connected stream true ∷ more
      → s.client.acceptable_protocols ≡ as_list wanted
      → Fits wanted
      → event_loop deps react s ≡ (ok tt, started)
  unfolding event_loop loop_at
  first_turn st reached names fits =
      ap (λ (at : ConnectionStatus). loop_at deps react at s) st
      ∙ start_init-asks deps s stream more wanted reached names fits

  second_turn :
      stream.incoming ≡ would_block ∷ later
      → stream.writes ≡ accepted ∷ writes
      → s.client.recv_storage ≡ []
      → s.client.input_events ≡ []
      → event_loop deps react started ≡ (ok tt, asked)
  unfolding event_loop loop_at run_once read_bytes_from_socket read_socket read read_into_buffer
      read_event insert_input_event pop_input_event pop_output_event handle_some handle_event
      handle_send_http_request try_write write_all
  second_turn quiet w storage ins = rw (quiet, w, storage, ins)

  pub turns-asked :
      s.client.connection_status ≡ start_init
      → s.connects ≡ connected stream true ∷ more
      → s.client.acceptable_protocols ≡ as_list wanted
      → Fits wanted
      → stream.incoming ≡ would_block ∷ later
      → stream.writes ≡ accepted ∷ writes
      → s.client.recv_storage ≡ []
      → s.client.input_events ≡ []
      → turns deps react 2 s ≡ asked
  turns-asked st reached names fits quiet w storage ins =
      ap (λ x. turns deps react 1 x.1) (first_turn st reached names fits)
      ∙ ap (λ x. x.1) (second_turn quiet w storage ins)

asked_headers-Distinct : (k : Text) (wanted : Wanted) → Distinct (asked_headers k wanted)
unfolding lookup str_eq
asked_headers-Distinct k none = (refl, (refl, (refl, (refl, (refl, tt)))))
asked_headers-Distinct k (some (p, ps)) = (refl, (refl, (refl, (refl, (refl, (refl, tt))))))

named :
    (k : Text) (wanted : Wanted)
    → (lookup (codes "Sec-WebSocket-Key") (asked_headers k wanted) ≡ some k)
      × (lookup (codes "Sec-WebSocket-Protocol") (asked_headers k wanted) ≡ value_of wanted)
unfolding lookup str_eq
named k none = (refl, refl)
named k (some (p, ps)) = (refl, refl)

-- Two turns of the loop from the start connect the client and put its request on the socket, behind
-- what has gone out before; a server that reads after RFC 7230 reads of these bytes a GET of the
-- path, with the key that the client remembers and, if the configuration names protocols, these with
-- commas between them. What the program has sent before stays queued. The list of protocols, if there is
-- one, is not empty, and shorter than 2 ^ 64 bytes when joined. The server is reached, says nothing yet, and takes what is sent. The `HashMap` gives
-- its entries in some order; the path is of visible characters, and the fields are well formed.
pub turns-ask :
    {T : Type 0} (deps : Deps) (react : React T) (stream : TcpStream) (more : List Connect)
    (later : List ReadResult) (writes : List WriteResult) (wanted : Wanted) (s : State T)
    → s.client.connection_status ≡ start_init
    → s.connects ≡ connected stream true ∷ more
    → s.client.acceptable_protocols ≡ as_list wanted
    → Fits wanted
    → stream.incoming ≡ would_block ∷ later
    → stream.writes ≡ accepted ∷ writes
    → s.client.recv_storage ≡ []
    → s.client.input_events ≡ []
    → let headers : Headers = asked_headers (gen_key deps s.draws).0 wanted in
      AllVisible s.client.path
      → All IsField (deps.order headers)
      → Perm headers (deps.order headers)
      → (wire : List ℕ) × (fields : List (Text × Text)) × (turns deps react 2 s ≡ record s {
        connects = more;
        draws = s.draws + 1;
        client = record s.client {
          connection_status = handshake;
          websocket_key = (gen_key deps s.draws).0;
          stream =
              some
                (record stream { incoming = later; writes = writes; sent = stream.sent ++ wire });
        };
      })
        × (server_request wire
            ≡ some (record {
              method = codes "GET";
              path = s.client.path;
              version = codes "HTTP/1.1";
              fields = fields;
              rest = [];
            }))
        × (lookup (codes "Sec-WebSocket-Key") fields ≡ some (gen_key deps s.draws).0)
        × (lookup (codes "Sec-WebSocket-Protocol") fields ≡ value_of wanted)
unfolding Request.new all_between
turns-ask deps react stream more later writes wanted s st reached names fits quiet w storage ins
      path good some_order =
    let r : Request = asked_request s.client.path (gen_key deps s.draws).0 wanted in
    let wire : List ℕ = Request.serialize deps.order r in
    let (reads, same) =
      server_request-serialize deps.order r path (visible (codes "HTTP/1.1") refl) good []
        some_order (asked_headers-Distinct (gen_key deps s.draws).0 wanted) in
    let (key_named, protocol_named) = named (gen_key deps s.draws).0 wanted in
    (
      wire,
      deps.order r.headers,
      turns-asked deps react stream more later writes wanted s st reached names fits quiet w storage
          ins,
      rw (append-nil wire) at reads,
      same (codes "Sec-WebSocket-Key") ∙ key_named,
      same (codes "Sec-WebSocket-Protocol") ∙ protocol_named,
    )
