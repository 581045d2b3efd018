-- ===== src/Sync/Tests/Closes.antt =====
-- The closing handshake on concrete states (websocket/src/sync/client.rs).
use websocket_std.Prelude.{
  ◌+◌, ◌≡◌, refl, List, ℕ, [], ◌∷◌, ◌++◌, none, some, true, arith, map, All,
}
use websocket_std.Outcome.{ok}
use websocket_std.Core.Binary.{to_be_bytes}
use websocket_std.Core.Net.{got, would_block}
use websocket_std.WsBasic.Header
use websocket_std.WsBasic.Header.{fin, noflag, length_bytes}
use websocket_std.WsBasic.Frame
use websocket_std.WsBasic.Frame.{Frame, control_frame, new_control, new_data, kind, data_kind}
use websocket_std.Sync.State.{
  State, websocket_data, on_close, server_close, client_close, opened, client_wants_to_close,
  closed,
}
use websocket_std.Sync.Tcp.{TcpStream, accepted}
use websocket_std.Sync.EventLoop.{event_loop}
use websocket_std.Sync.EventLoop.Drained.{turns}
use websocket_std.Sync.EventLoop.CloseHandshake.{answer}
use websocket_std.Sync.EventLoop.CloseFrames.{close_control}
use websocket_std.Sync.EventLoop.Closing.{turns-server_close, event_loop-client_close}
use websocket_std.Sync.Tests.{test_deps, silent, at, hi, frame, socket}

-- The first byte of a close frame with the status 1000 and a reason is there, and the others come.
abbrev closing : TcpStream
closing = record socket {
  incoming = got (4 ∷ 3 ∷ 232 ∷ hi) ∷ would_block ∷ [];
  writes = accepted ∷ accepted ∷ [];
  shutdowns = true ∷ [];
}

abbrev started : State ℕ → State ℕ
started s = record s {
  client = record s.client { recv_storage = 0x88 ∷ []; input_events = []; output_events = [] };
}

-- Two frames of a text are queued.
abbrev sending : List Frame
sending = frame noflag ∷ frame fin ∷ []

abbrev server_asks : State ℕ
server_asks =
    let s = started (at opened closing) in
    record s { client = record s.client { output_events = map websocket_data sending } }

whole_close :
    (0x88 ∷ []) ++ 4 ∷ 3 ∷ 232 ∷ hi ≡ Frame.serialize (control_frame (close_control 1000 hi))
unfolding Frame.serialize Header.serialize length_bytes new_control to_be_bytes
whole_close = refl

frame_kinds : All (λ f. kind f ≡ data_kind) sending
unfolding kind new_data
frame_kinds = (refl, (refl, tt))

turns-server_close_example :
    ((event_loop test_deps silent server_asks).1.client.output_events
      ≡ websocket_data (answer test_deps server_asks 1000 hi) ∷ [])
    × (turns test_deps silent 2 server_asks
        ≡ silent 1 (on_close (server_close 1000)) server_asks.client.cb_data (record server_asks {
          draws = 0 + 1;
          client = record server_asks.client {
            recv_storage = [];
            output_events = [];
            input_events = [];
            stream = none;
            connection_status = closed;
          };
          given_up =
              []
              ++ record {
                incoming = [];
                writes = [];
                shutdowns = [];
                sent =
                    ([] ++ Frame.serialize (frame noflag))
                    ++ Frame.serialize (answer test_deps server_asks 1000 hi);
              }
                ∷ [];
        }))
turns-server_close_example =
    turns-server_close test_deps silent 1000 hi sending 4 (3 ∷ 232 ∷ hi) closing [] [] [] 1
      server_asks (omega arith) (omega arith) refl refl refl refl refl (omega arith) whole_close
      refl refl frame_kinds refl

abbrev client_asks : State ℕ
client_asks = started (at client_wants_to_close closing)

event_loop-client_close_example : event_loop test_deps silent client_asks ≡ (
  ok tt,
  silent 1 (on_close (client_close 1000)) client_asks.client.cb_data (record client_asks {
    client = record client_asks.client {
      recv_storage = [];
      stream = some (record closing { incoming = would_block ∷ []; shutdowns = [] });
      connection_status = closed;
    };
  }),
)
event_loop-client_close_example =
    event_loop-client_close test_deps silent 1000 hi 4 (3 ∷ 232 ∷ hi) closing (would_block ∷ []) []
      1 client_asks (omega arith) (omega arith) refl refl refl refl (omega arith) whole_close refl
      refl refl
