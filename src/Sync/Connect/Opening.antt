-- ===== src/Sync/Connect/Opening.antt =====
-- The request that `WSClient::start_init` (websocket/src/sync/client.rs) queues.
use websocket_std.Prelude.{
  ◌+◌, ◌-◌, ◌%◌, ◌^◌, ◌<◌, ◌≡◌, refl, ap, List, [], ◌∷◌, ◌++◌, length, Option, none, some, true,
  arith, length-append, append_assoc, take_exact,
}
use websocket_std.Outcome.{WebSocketError, ok, panic, slice, slice-ok}
use websocket_std.Std.Str.{codes, str_eq}
use websocket_std.Http.Headers.{Text, Headers, insert}
use websocket_std.Http.Request
use websocket_std.Http.Request.{Request, get}
use websocket_std.Sync.Deps.{Deps, gen_key}
use websocket_std.Sync.Tcp.{TcpStream}
use websocket_std.Sync.State.{State, Connect, connected, http_request, handshake}
use websocket_std.Sync.Connect.{
  sec_websocket_protocol, protocols_value, add_protocols, base_headers, set_stream, open_stream,
  connect_with, start_init,
}

-- The protocols, with a comma and a space between two of them.
abbrev pub join : Text → List Text → Text
join p [] = p
join p (q ∷ qs) = p ++ (codes ", " ++ join q qs)

protocols_value-join :
    (p : Text) (ps : List Text) → protocols_value (p ∷ ps) ≡ join p ps ++ codes ", "
unfolding protocols_value
protocols_value-join p [] = refl
protocols_value-join p (q ∷ qs) =
    rw (append_assoc p (codes ", " ++ join q qs) (codes ", "))
      (ap (λ (v : Text). p ++ (codes ", " ++ v)) (protocols_value-join q qs))

add_protocols-join :
    (p : Text) (ps : List Text) (headers : Headers)
    → length (join p ps) < 2 ^ 64
    → add_protocols (some (p ∷ ps)) headers ≡ ok (insert sec_websocket_protocol (join p ps) headers)
unfolding add_protocols
add_protocols-join p ps headers fits =
    let v : Text = join p ps in
    let size : length (v ++ codes ", ") ≡ length v + 2 = length-append v (codes ", ") in
    let cut : (length v + 2 + 2 ^ 64 - 2) % 2 ^ 64 ≡ length v = omega arith in
    let same : length v - 0 ≡ length v = omega arith in
    rw (
      protocols_value-join p ps,
      size,
      cut,
      slice-ok WebSocketError 0 (length v) (v ++ codes ", ") (omega arith) (omega (arith, size)),
      same,
      take_exact (length v) v (codes ", ") refl,
      add_protocols,
    )

add_protocols-empty : (headers : Headers) → add_protocols (some []) headers ≡ panic
unfolding add_protocols protocols_value slice
add_protocols-empty headers = refl

module _ {T : Type 0} (deps : Deps) (s : State T) (stream : TcpStream) (rest : List Connect)
    (reached : s.connects ≡ connected stream true ∷ rest) where
  -- Where the server is reached and the configuration names protocols, the request is queued in
  -- front of what the program has sent before: a GET of the path with a fresh key, which the client
  -- remembers, and the protocols with commas between them, which are shorter than 2 ^ 64 bytes. The
  -- client waits for the response on the new socket.
  pub start_init-request :
      (p : Text) (ps : List Text)
      → s.client.acceptable_protocols ≡ some (p ∷ ps)
      → length (join p ps) < 2 ^ 64
      → let key = (gen_key deps s.draws).0 in
        start_init deps s ≡ (
          ok tt,
          record s {
            connects = rest;
            draws = s.draws + 1;
            client = record s.client {
              stream = some stream;
              connection_status = handshake;
              websocket_key = key;
              output_events =
                  http_request (
                    Request.new get s.client.path (codes "HTTP/1.1") (
                      some (
                        (codes "Upgrade", codes "websocket")
                        ∷ (codes "Connection", codes "Upgrade")
                        ∷ (codes "Sec-WebSocket-Key", key)
                        ∷ (codes "Sec-WebSocket-Version", codes "13")
                        ∷ (codes "User-agent", codes "rust-websocket-std")
                        ∷ (codes "Sec-WebSocket-Protocol", join p ps)
                        ∷ [])))
                  ∷ s.client.output_events;
            };
          },
        )
  unfolding start_init connect_with open_stream set_stream insert str_eq gen_key base_headers
  start_init-request p ps wanted fits =
      rw (reached, wanted, add_protocols-join p ps (base_headers (gen_key deps s.draws).0) fits)

  -- Where the server is reached and the configuration has an empty list of protocols, the call
  -- panics: the slice that cuts the last comma off is out of range. The socket is dropped, and the
  -- state of the connection is what it was.
  pub start_init_no_protocols :
      s.client.acceptable_protocols ≡ some []
      → start_init deps s ≡ (panic, record s { connects = rest; draws = s.draws + 1 })
  unfolding start_init connect_with open_stream gen_key
  start_init_no_protocols wanted =
      rw (reached, wanted, add_protocols-empty (base_headers (gen_key deps s.draws).0))

-- The protocols that a configuration may name: none at all, or a list that is not empty.
abbrev pub Wanted : Type 0
Wanted = Option (Text × List Text)

abbrev pub as_list : Wanted → Option (List Text)
as_list none = none
as_list (some (p, ps)) = some (p ∷ ps)

abbrev pub value_of : Wanted → Option Text
value_of none = none
value_of (some (p, ps)) = some (join p ps)

abbrev pub Fits : Wanted → Type 0
Fits none = Unit
Fits (some (p, ps)) = length (join p ps) < 2 ^ 64

-- The fields of the request.
abbrev pub asked_headers : Text → Wanted → Headers
asked_headers key none =
    (codes "Upgrade", codes "websocket")
    ∷ (codes "Connection", codes "Upgrade")
    ∷ (codes "Sec-WebSocket-Key", key)
    ∷ (codes "Sec-WebSocket-Version", codes "13")
    ∷ (codes "User-agent", codes "rust-websocket-std")
    ∷ []
asked_headers key (some (p, ps)) =
    (codes "Upgrade", codes "websocket")
    ∷ (codes "Connection", codes "Upgrade")
    ∷ (codes "Sec-WebSocket-Key", key)
    ∷ (codes "Sec-WebSocket-Version", codes "13")
    ∷ (codes "User-agent", codes "rust-websocket-std")
    ∷ (codes "Sec-WebSocket-Protocol", join p ps)
    ∷ []

abbrev pub asked_request : Text → Text → Wanted → Request
asked_request path key wanted =
    Request.new get path (codes "HTTP/1.1") (some (asked_headers key wanted))

-- The same, with or without protocols.
pub start_init-asks :
    {T : Type 0} (deps : Deps) (s : State T) (stream : TcpStream) (rest : List Connect)
    (wanted : Wanted)
    → s.connects ≡ connected stream true ∷ rest
    → s.client.acceptable_protocols ≡ as_list wanted
    → Fits wanted
    → start_init deps s ≡ (
      ok tt,
      record s {
        connects = rest;
        draws = s.draws + 1;
        client = record s.client {
          stream = some stream;
          connection_status = handshake;
          websocket_key = (gen_key deps s.draws).0;
          output_events =
              http_request (asked_request s.client.path (gen_key deps s.draws).0 wanted)
              ∷ s.client.output_events;
        };
      },
    )
unfolding start_init connect_with open_stream set_stream gen_key base_headers add_protocols
start_init-asks deps s stream rest none reached names fits = rw (reached, names)
start_init-asks deps s stream rest (some (p, ps)) reached names fits =
    start_init-request deps s stream rest reached p ps names fits
