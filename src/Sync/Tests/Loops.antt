-- ===== src/Sync/Tests/Loops.antt =====
-- Runs of the event loop and of `drop` (websocket/src/sync/client.rs).
use websocket_std.Prelude.{ℕ, ◌*◌, ◌≡◌, refl, [], ◌∷◌, some, arith}
use websocket_std.Outcome.{WebSocketResult, ok}
use websocket_std.Core.Net.{got, would_block}
use websocket_std.Sync.State.{State, opened, closed, new}
use websocket_std.Sync.EventLoop.{event_loop}
use websocket_std.Sync.Drop.{drop}
use websocket_std.Sync.Moves.{Moved}
use websocket_std.Sync.Moves.Loop.{event_loop-Moved, drop-ends}
use websocket_std.Sync.EventLoop.{loop_at}
use websocket_std.Ffi.Common.{connection_close_status, rust_error_to_c_error}
use websocket_std.Ffi.Client.{wssclient_loop}
use websocket_std.Ffi.Client.Status.{meaning, wssclient_loop-meaning}
use websocket_std.Sync.Tests.{test_deps, silent, socket, at, silent-Calm}

-- A ping and part of a text wait in the socket.
abbrev reading : State ℕ
reading =
    at opened (record socket { incoming = got (0x89 ∷ 2 ∷ 3 ∷ 232 ∷ 0x81 ∷ []) ∷ would_block ∷ [] })

event_loop-Moved_example : Moved reading (event_loop test_deps silent reading).1
event_loop-Moved_example = event_loop-Moved test_deps silent silent-Calm reading

drop-ends_example :
    (r : WebSocketResult (Unit {0}) × State ℕ) × (drop test_deps silent (λ n. n * 10) 4 reading
      ≡ some r)
unfolding new
drop-ends_example =
    drop-ends test_deps silent silent-Calm (λ n. n * 10) 4 3 reading (omega arith) (omega arith)

loop_closed : (wssclient_loop test_deps silent (at closed socket)).0 ≡ ok connection_close_status
unfolding wssclient_loop event_loop loop_at rust_error_to_c_error
loop_closed = refl

wssclient_loop-meaning_example :
    (event_loop test_deps silent (at closed socket)).0 ≡ meaning connection_close_status
wssclient_loop-meaning_example =
    wssclient_loop-meaning test_deps silent (at closed socket) connection_close_status loop_closed
