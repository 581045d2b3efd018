-- ===== src/Sync/EventLoop/Opening.antt =====
-- `WSClient::event_loop` (websocket/src/sync/client.rs) in the opening handshake: from the bytes of the
-- response to the callback.
use websocket_std.Prelude.{ℕ, ◌≤◌, ◌≡◌, refl, ap, ◌∙◌, List, [], ◌∷◌, ◌++◌, length, none, some, map}
use websocket_std.Outcome.{ok, WebSocketResult}
use websocket_std.Core.Net.{ReadResult, got}
use websocket_std.Std.Utf8.{from_utf8_lossy_kept}
use websocket_std.Http.Headers.{Text}
use websocket_std.Http.Response
use websocket_std.Http.Response.{Response, ParseError, non_empty}
use websocket_std.Http.Response.Written.{Written, IsWritten, write}
use websocket_std.Http.Response.RoundTrip.{read_back, parse-write}
use websocket_std.WsBasic.Frame.{Frame}
use websocket_std.Sync.Deps.{Deps, guid}
use websocket_std.Sync.Tcp.{TcpStream}
use websocket_std.Sync.State.{
  State, websocket_data, is_websocket_data, http_response, output, on_connect, React,
  ConnectionStatus, handshake, opened,
}
use websocket_std.Sync.Exec.{continue}
use websocket_std.Sync.Connect.{
  sec_websocket_accept, sec_websocket_protocol, handle_recv_http_response,
}
use websocket_std.Sync.Connect.Handshake.{handle_recv_http_response-opens}
use websocket_std.Sync.Input.{
  read_bytes_from_socket, read_event, insert_input_event, handle_recv_bytes_http_response,
  take_response,
}
use websocket_std.Sync.Input.Reading.{read_socket-chunk}
use websocket_std.Sync.Output.{pop_output_event}
use websocket_std.Sync.EventLoop.{
  event_loop, loop_at, run_once, pop_input_event, handle_some, handle_event,
}

module _ {T : Type 0} (deps : Deps) where
  -- Bytes that a response is made of are taken for it, all of them.
  read_event-response :
      (xs : List ℕ) (c : ℕ) (cs : List ℕ) (response : Response) (s : State T)
      → s.client.recv_storage ≡ xs ++ c ∷ cs
      → Response.parse deps.to_lowercase (xs ++ c ∷ cs) ≡ ok response
      → read_event deps handshake (xs ++ c ∷ cs) s
        ≡ (ok (http_response response), record s { client = record s.client { recv_storage = [] } })
  unfolding read_event handle_recv_bytes_http_response take_response
  read_event-response [] c cs response s stored parsed = rw (stored, parsed)
  read_event-response (x ∷ xs) c cs response s stored parsed = rw (stored, parsed)

  -- The socket gives the last piece of a response.
  read_bytes_from_socket-response :
      (c : ℕ) (cs : List ℕ) (stream : TcpStream) (later : List ReadResult) (response : Response)
      (s : State T)
      → s.client.connection_status ≡ handshake
      → s.client.stream ≡ some stream
      → stream.incoming ≡ got (c ∷ cs) ∷ later
      → length (c ∷ cs) ≤ 1024
      → Response.parse deps.to_lowercase (s.client.recv_storage ++ c ∷ cs) ≡ ok response
      → read_bytes_from_socket deps s ≡ (
        ok (http_response response),
        record s {
          client = record s.client {
            recv_storage = [];
            stream = some (record stream { incoming = later });
          };
        },
      )
  unfolding read_bytes_from_socket
  read_bytes_from_socket-response c cs stream later response s st has comes fits parsed =
      rw (read_socket-chunk deps c cs stream later s has comes fits, st)
        (read_event-response s.client.recv_storage c cs response _ refl parsed)

  module _ (react : React T) where
    run_once-response :
        (response : Response) (fs : List Frame) (s t : State T)
        → read_bytes_from_socket deps s ≡ (ok (http_response response), t)
        → t.client.connection_status ≡ handshake
        → t.client.input_events ≡ []
        → t.client.output_events ≡ map websocket_data fs
        → run_once deps react s
          ≡ continue
              (handle_recv_http_response deps react response t).0
              (λ done. handle_some deps react output none)
              (handle_recv_http_response deps react response t).1
    unfolding run_once insert_input_event pop_input_event pop_output_event handle_some handle_event
        is_websocket_data
    run_once-response response [] s t r st i o = rw (r, i, o)
    run_once-response response (f ∷ fs) s t r st i o = rw (r, i, o, st)

-- A response with status 101 that proves the key, as a server writes it: the turn of the loop that
-- reads the last piece of it in the handshake opens the connection, with the protocol that the
-- server accepted, and tells the callback. All bytes that have come are taken for the response:
-- what stands behind its head is its body, also where it is the first frame of the server. Frames that
-- were sent before stay queued, nothing else is, and the last read is not empty and fits the buffer.
pub event_loop-opens :
    {T : Type 0} (deps : Deps) (react : React T) (w : Written) (accept : Text) (c : ℕ) (cs : List ℕ)
    (stream : TcpStream) (later : List ReadResult) (pointer : ℕ) (fs : List Frame) (s : State T)
    → IsWritten w
    → w.status ≡ 101
    → Response.header deps.to_lowercase (read_back deps.to_lowercase w) sec_websocket_accept
      ≡ some accept
    → accept ≡ deps.base64_encode (deps.sha1 (s.client.websocket_key ++ guid))
    → s.client.connection_status ≡ handshake
    → s.client.stream ≡ some stream
    → stream.incoming ≡ got (c ∷ cs) ∷ later
    → length (c ∷ cs) ≤ 1024
    → s.client.recv_storage ++ c ∷ cs ≡ write w
    → s.client.callback ≡ some pointer
    → s.client.input_events ≡ []
    → s.client.output_events ≡ map websocket_data fs
    → event_loop deps react s ≡ (
      ok tt,
      react pointer
          (on_connect (non_empty (from_utf8_lossy_kept w.body)))
          s.client.cb_data
          (record s {
            client = record s.client {
              connection_status = opened;
              protocol =
                  Response.header deps.to_lowercase
                    (read_back deps.to_lowercase w)
                    sec_websocket_protocol;
              recv_storage = [];
              stream = some (record stream { incoming = later });
            };
          }),
    )
unfolding event_loop loop_at handle_some
event_loop-opens {T} deps react w accept c cs stream later pointer fs s good switches named proves
      st has comes fits whole cb ins outs =
    let response : Response = read_back deps.to_lowercase w in
    let t : State T = record s {
      client = record s.client {
        recv_storage = [];
        stream = some (record stream { incoming = later });
      };
    } in
    let parsed : Response.parse deps.to_lowercase (s.client.recv_storage ++ c ∷ cs) ≡ ok response =
      ap (Response.parse deps.to_lowercase) whole ∙ parse-write w good deps.to_lowercase in
    let reads : read_bytes_from_socket deps s ≡ (ok (http_response response), t) =
      read_bytes_from_socket-response deps c cs stream later response s st has comes fits parsed in
    let opens : handle_recv_http_response deps react response t ≡ (
      ok tt,
      react pointer (on_connect response.body) s.client.cb_data (record t {
        client = record t.client {
          connection_status = opened;
          protocol = Response.header deps.to_lowercase response sec_websocket_protocol;
        };
      }),
    ) =
      handle_recv_http_response-opens deps react response t st
        (record { accept = accept; has_accept = named; proves_key = proves; switches = switches })
      ∙ rw cb in
    ap (λ (at : ConnectionStatus). loop_at deps react at s) st
    ∙ run_once-response deps react response fs s t reads st ins outs
    ∙ ap
        (λ (r : WebSocketResult (Unit {0}) × State T).
          continue r.0 (λ done. handle_some deps react output none) r.1)
        opens
