-- ===== src/Sync/EventLoop/Handshake.antt =====
-- The whole opening handshake (websocket/src/sync/client.rs): from the start of the client to the open
-- connection.
use mathlib.Core.List.{Perm}
use websocket_std.Prelude.{
  ℕ, ◌+◌, ◌≤◌, ◌≡◌, refl, ap, ◌∙◌, List, [], ◌∷◌, ◌++◌, length, some, true, All, map,
}
use websocket_std.Core.Net.{ReadResult, got, would_block}
use websocket_std.Std.Str.Trim.{AllVisible}
use websocket_std.Std.Utf8.{from_utf8_lossy_kept}
use websocket_std.Http.Headers.{Text, Headers}
use websocket_std.Http.Request
use websocket_std.Http.Response
use websocket_std.Http.Response.{Response, non_empty}
use websocket_std.Http.Response.Written.{Written, IsField, IsWritten, write}
use websocket_std.Http.Response.RoundTrip.{read_back}
use websocket_std.WsBasic.Frame.{Frame}
use websocket_std.Sync.Deps.{Deps, gen_key, guid}
use websocket_std.Sync.Tcp.{TcpStream, WriteResult, accepted}
use websocket_std.Sync.State.{
  State, websocket_data, Connect, connected, on_connect, React, start_init, opened,
}
use websocket_std.Sync.Connect.{sec_websocket_accept, sec_websocket_protocol}
use websocket_std.Sync.Connect.Opening.{Wanted, as_list, Fits, asked_headers, asked_request}
use websocket_std.Sync.EventLoop.{event_loop}
use websocket_std.Sync.EventLoop.Drained.{turns}
use websocket_std.Sync.EventLoop.Asking.{asked, turns-asked}
use websocket_std.Sync.EventLoop.Opening.{event_loop-opens}

-- The server answers the request with a 101 that proves the key that it got.
pub record Answers (deps : Deps) (key : Text) (w : Written) : Type 0 where
  pub written : IsWritten w
  pub switches : w.status ≡ 101
  pub accepts :
      Response.header deps.to_lowercase (read_back deps.to_lowercase w) sec_websocket_accept
      ≡ some (deps.base64_encode (deps.sha1 (key ++ guid)))

-- The opening handshake ends, and well: three turns of the loop from the start connect the client, put
-- its request on the socket, and open the connection when the server has answered with a 101 that
-- proves the key it got; the callback is told, with the protocol that the server accepted. The
-- server is reached, takes the request, and its answer comes in one read that fits the buffer. The
-- configuration names protocols or none, but not an empty list, and when joined they are shorter than
-- 2 ^ 64 bytes; frames may have been sent before the start, and stay queued, but nothing else is. The
-- path is of visible characters, the fields of the request are well formed, and the `HashMap` gives
-- them in some order.
pub turns-open :
    {T : Type 0} (deps : Deps) (react : React T) (stream : TcpStream) (more : List Connect) (c : ℕ)
    (cs : List ℕ) (later : List ReadResult) (writes : List WriteResult) (wanted : Wanted)
    (fs : List Frame) (w : Written) (pointer : ℕ) (s : State T)
    → s.client.connection_status ≡ start_init
    → s.connects ≡ connected stream true ∷ more
    → s.client.acceptable_protocols ≡ as_list wanted
    → Fits wanted
    → stream.incoming ≡ would_block ∷ got (c ∷ cs) ∷ later
    → stream.writes ≡ accepted ∷ writes
    → s.client.recv_storage ≡ []
    → s.client.input_events ≡ []
    → s.client.output_events ≡ map websocket_data fs
    → s.client.callback ≡ some pointer
    → c ∷ cs ≡ write w
    → length (c ∷ cs) ≤ 1024
    → let key : Text = (gen_key deps s.draws).0 in
      let headers : Headers = asked_headers key wanted in
      AllVisible s.client.path
      → All IsField (deps.order headers)
      → Perm headers (deps.order headers)
      → Answers deps key w
      → turns deps react 3 s
        ≡ react pointer
            (on_connect (non_empty (from_utf8_lossy_kept w.body)))
            s.client.cb_data
            (record s {
              connects = more;
              draws = s.draws + 1;
              client = record s.client {
                connection_status = opened;
                websocket_key = key;
                protocol =
                    Response.header deps.to_lowercase
                      (read_back deps.to_lowercase w)
                      sec_websocket_protocol;
                recv_storage = [];
                stream = some (record stream {
                  incoming = later;
                  writes = writes;
                  sent =
                      stream.sent
                      ++ Request.serialize deps.order (asked_request s.client.path key wanted);
                });
              };
            })
turns-open deps react stream more c cs later writes wanted fs w pointer s st reached names fits
      comes takes storage ins outs cb whole small path good some_order answers =
    let key : Text = (gen_key deps s.draws).0 in
    let received : List ReadResult = got (c ∷ cs) ∷ later in
    let t = asked deps react stream more received writes wanted s in
    ap (λ x. (event_loop deps react x).1)
      (turns-asked deps react stream more received writes wanted s st reached names fits comes takes
        storage ins)
    ∙ ap (λ r. r.1)
        (event_loop-opens deps react w (deps.base64_encode (deps.sha1 (key ++ guid))) c cs
          (record stream {
            incoming = received;
            writes = writes;
            sent =
                stream.sent
                ++ Request.serialize deps.order (asked_request s.client.path key wanted);
          })
          later pointer fs t answers.written answers.switches answers.accepts refl refl refl refl
          small (ap (λ (xs : List ℕ). xs ++ c ∷ cs) storage ∙ whole) cb ins outs)
