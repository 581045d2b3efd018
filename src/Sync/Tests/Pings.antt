-- ===== src/Sync/Tests/Pings.antt =====
-- A ping on a concrete state (websocket/src/sync/client.rs).
use websocket_std.Prelude.{◌+◌, ◌≡◌, refl, ℕ, [], ◌∷◌, ◌++◌, some, arith}
use websocket_std.Core.Binary.{to_be_bytes}
use websocket_std.Core.Net.{got, would_block}
use websocket_std.WsBasic.Header
use websocket_std.WsBasic.Header.{fin, noflag, ping, length_bytes}
use websocket_std.WsBasic.Frame
use websocket_std.WsBasic.Frame.{Frame, control_frame, new_control}
use websocket_std.Sync.State.{State, websocket_data, opened}
use websocket_std.Sync.Tcp.{TcpStream, accepted}
use websocket_std.Sync.EventLoop.Drained.{turns}
use websocket_std.Sync.EventLoop.CloseFrames.{server_control}
use websocket_std.Sync.EventLoop.Ping.{pong_control, turns-ping}
use websocket_std.Sync.Tests.{test_deps, silent, at, hi, frame, frame-data_kind, socket}

-- The first byte of a ping with the payload "hihi" is there, and the others come.
abbrev pinging : TcpStream
pinging = record socket {
  incoming = got (4 ∷ 0x68 ∷ 0x69 ∷ hi) ∷ would_block ∷ [];
  writes = accepted ∷ accepted ∷ [];
  sent = [];
}

-- Two frames of a text are queued.
abbrev pinged : State ℕ
pinged = record (at opened pinging) {
  client = record (at opened pinging).client {
    recv_storage = 0x89 ∷ [];
    input_events = [];
    output_events = websocket_data (frame noflag) ∷ websocket_data (frame fin) ∷ [];
  };
}

whole_ping :
    (0x89 ∷ []) ++ 4 ∷ 0x68 ∷ 0x69 ∷ hi
    ≡ Frame.serialize (control_frame (server_control ping 0x6869 hi))
unfolding Frame.serialize Header.serialize length_bytes new_control to_be_bytes
whole_ping = refl

turns-ping_example : turns test_deps silent 2 pinged ≡ record pinged {
  draws = 0 + 1;
  client = record pinged.client {
    recv_storage = [];
    output_events = websocket_data (frame fin) ∷ [];
    stream = some (record pinging {
      incoming = [];
      writes = [];
      sent =
          ([] ++ Frame.serialize (frame noflag))
          ++ Frame.serialize (
              control_frame
                (pong_control test_deps pinged (server_control ping 0x6869 hi).payload));
    });
  };
}
turns-ping_example =
    turns-ping test_deps silent 0x6869 hi (frame noflag) (websocket_data (frame fin) ∷ []) 4
      (0x68 ∷ 0x69 ∷ hi) pinging [] [] pinged (omega arith) (omega arith) refl refl refl refl
      (omega arith) whole_ping refl refl (frame-data_kind noflag)
