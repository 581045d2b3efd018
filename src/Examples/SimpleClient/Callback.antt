-- ===== src/Examples/SimpleClient/Callback.antt =====
-- The callback of examples/simple_client.rs, as the client of websocket/src/sync/client.rs calls it.
use websocket_std.Prelude.{
  ℕ, zero, suc, ◌*◌, ◌^◌, ◌≤◌, ◌<◌, ◌≡◌, refl, ap, ◌∙◌, List, [], ◌∷◌, ◌++◌, length, get_elem?,
  Option, none, some, true, false, ◌||◌, ◌==◌, arith, lt→ltb, All,
}
use mathlib.Core.Bool.{or-true}
use websocket_std.Outcome.{ok}
use websocket_std.Core.Binary.{IsVec}
use websocket_std.Core.Net.{ReadResult, got}
use websocket_std.Std.Utf8.{is_char_boundary, is_utf8}
use websocket_std.Std.Str.{codes}
use websocket_std.Http.Headers.{Text}
use websocket_std.WsBasic.Header.{fin}
use websocket_std.WsBasic.Frame
use websocket_std.WsBasic.Frame.{data_frame, new_data, is_data}
use websocket_std.Sync.Deps.{Deps}
use websocket_std.Sync.Tcp.{TcpStream}
use websocket_std.Sync.State.{
  State, Event, on_connect as connect_event, on_text as text_event, opened, protocol,
}
use websocket_std.Sync.Send.{is_closed}
use websocket_std.Sync.Send.Cuts.{Cuts}
use websocket_std.Sync.Send.Fragments.{Fragments, send-Fragments}
use websocket_std.Sync.EventLoop.{event_loop}
use websocket_std.Sync.EventLoop.Delivery.{event_loop-text}
use websocket_std.Examples.Shared.{add_one}
use websocket_std.Examples.SimpleClient.{
  on_message, greet, accepted, hello_world, on_connect, websocket_handler, callback,
}

-- A text of ASCII may be cut anywhere.
abbrev IsAscii : Text → Type 0
IsAscii = All (λ b. b < 128)

byte_below :
    (text : Text) (i : ℕ)
    → IsAscii text
    → i < length text
    → (b : ℕ) × (get_elem? text i ≡ some b) × (b < 128)
byte_below [] i ascii lt = absurd (omega arith)
byte_below (b ∷ text) zero ascii lt = (b, refl, ascii.0)
byte_below (b ∷ text) (suc i) ascii lt = byte_below text i ascii.1 (omega arith)

Cuts-IsAscii : (size : ℕ) (text : Text) → IsAscii text → Cuts size text
unfolding is_char_boundary
Cuts-IsAscii size text ascii k lt =
    let (b, here, small) = byte_below text (k * size) ascii lt in
    rw (here, lt→ltb b 128 small) (or-true (k * size == 0 || k * size == length text))

hello-IsAscii : IsAscii hello_world
hello-IsAscii = (
  omega arith,
  (
    omega arith,
    (
      omega arith,
      (
        omega arith,
        (
          omega arith,
          (
            omega arith,
            (omega arith, (omega arith, (omega arith, (omega arith, (omega arith, tt))))),
          ),
        ),
      ),
    ),
  ),
)

-- What has been printed when the connection has opened, behind what was printed before.
abbrev pub connected_lines : Option Text → Text → Text
connected_lines name before =
    (before ++ codes "Connected\n")
    ++ (codes "Accepted protocol: " ++ (accepted name ++ codes "\n"))

abbrev pub greeted : Option Text → Option Text → Text → Text
greeted name none before = connected_lines name before
greeted name (some msg) before =
    connected_lines name before ++ (codes "Message received on connect: " ++ (msg ++ codes "\n"))

pub greet_lem :
    (msg : Option Text) (s : State ℕ)
    → greet msg s ≡ (ok tt, record s { printed = greeted s.client.protocol msg s.printed })
unfolding greet protocol
greet_lem none s = refl
greet_lem (some msg) s = refl

-- When the connection opens, the callback prints the protocol and the message of the server, and
-- queues "Hello world", as the frames of one message, behind what is queued. The message size is
-- positive, and the connection is not closed.
pub websocket_handler-connect :
    (deps : Deps) (msg : Option Text) (data_of : Option ℕ) (s : State ℕ)
    → 0 < s.client.message_size
    → s.client.message_size < 2 ^ 64
    → is_closed s.client.connection_status ≡ false
    → (n : ℕ) × (events : List Event) × (websocket_handler deps (connect_event msg) data_of s
        ≡ some (
          ok tt,
          record s {
            draws = n;
            printed = greeted s.client.protocol msg s.printed;
            client = record s.client { output_events = s.client.output_events ++ events };
          },
        ))
      × Fragments s.client.message_size true hello_world events
unfolding websocket_handler on_connect
websocket_handler-connect deps msg data_of s pos word live =
    let t : State ℕ = record s { printed = greeted s.client.protocol msg s.printed } in
    let (n, events, sends, shape) =
      send-Fragments deps hello_world t (omega arith) pos word
        (Cuts-IsAscii s.client.message_size hello_world hello-IsAscii) live in
    (n, events, rw (greet_lem msg s) sends, shape)

callback-text :
    (deps : Deps) (pointer cell : ℕ) (msg : Text) (data_of : Option ℕ) (s : State ℕ)
    → data_of ≡ some cell
    → callback deps pointer (text_event msg) data_of s ≡ record s {
      cells = add_one cell s.cells;
      printed = s.printed ++ (codes "[SERVER]: " ++ (msg ++ codes "\n"));
    }
unfolding websocket_handler on_message
callback-text deps pointer cell msg data_of s e = rw e refl

-- A text of valid UTF-8 in one frame that has come: the turn of the loop adds one to the number that
-- the program shares with its callback, prints the text, and changes nothing else but what was read.
-- The connection is open, the frame came in pieces, of which the last is not empty and fits the
-- buffer, and nothing else is queued or half received.
pub event_loop-counts :
    (deps : Deps) (code : ℕ) (payload rest : List ℕ) (c : ℕ) (cs : List ℕ) (stream : TcpStream)
    (later : List ReadResult) (pointer cell : ℕ) (s : State ℕ)
    → is_data code ≡ true
    → IsVec payload
    → is_utf8 payload ≡ true
    → s.client.connection_status ≡ opened
    → s.client.stream ≡ some stream
    → stream.incoming ≡ got (c ∷ cs) ∷ later
    → length (c ∷ cs) ≤ 1024
    → s.client.recv_storage ++ c ∷ cs
      ≡ Frame.serialize (data_frame (new_data fin code payload false none [])) ++ rest
    → s.client.callback ≡ some pointer
    → s.client.cb_data ≡ some cell
    → s.client.recv_data ≡ []
    → s.client.input_events ≡ []
    → s.client.output_events ≡ []
    → event_loop deps (callback deps) s ≡ (
      ok tt,
      record s {
        cells = add_one cell s.cells;
        printed = s.printed ++ (codes "[SERVER]: " ++ (payload ++ codes "\n"));
        client = record s.client {
          recv_storage = rest;
          stream = some (record stream { incoming = later });
        };
      },
    )
event_loop-counts deps code payload rest c cs stream later pointer cell s d v utf st has comes fits
      whole cb shared empty ins outs =
    event_loop-text deps (callback deps) code payload rest c cs stream later pointer s d v utf st
      has comes fits whole cb empty ins outs
    ∙ ap (λ t. (ok tt, t))
        (callback-text deps pointer cell payload s.client.cb_data
          (record s {
            client = record s.client {
              recv_storage = rest;
              stream = some (record stream { incoming = later });
            };
          })
          shared)
