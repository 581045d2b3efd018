-- ===== src/Sync/Tests/Channels.antt =====
-- The client as a channel of texts, on concrete calls (websocket/src/sync/client.rs).
use websocket_std.Prelude.{ℕ, ◌≡◌, refl, List, [], ◌∷◌, ◌++◌, length, some, All, arith}
use websocket_std.WsBasic.Frame.{Frame}
use websocket_std.WsBasic.Frame.Messages.{all_bytes, server_messages}
use websocket_std.Sync.State.{State, opened}
use websocket_std.Sync.EventLoop.Drained.{sending, turns}
use websocket_std.Sync.Channel.{Op, say, turn, said, run}
use websocket_std.Sync.Channel.Refines.{SendableOp, run-Channel, run-delivers}
use websocket_std.Sync.Tests.{test_deps, silent, socket, at, hi, hi-Cuts}

abbrev small : State ℕ
small = record (at opened socket) { client = record (at opened socket).client { message_size = 1 } }

abbrev calls : List Op
calls = say hi ∷ turn ∷ say [] ∷ turn ∷ say hi ∷ []

calls-said : said calls ≡ hi ∷ hi ∷ []
calls-said = refl

calls-SendableOp : All (SendableOp 1) calls
calls-SendableOp =
    let hi_ok : SendableOp 1 (say hi) = ((omega arith, (omega arith, tt)), omega arith, hi-Cuts) in
    (hi_ok, (tt, ((tt, omega arith, λ k h. absurd (omega arith)), (tt, (hi_ok, tt)))))

run-Channel_example :
    (next : State ℕ) × (n : ℕ) × (gone queued : List Frame) × (run test_deps silent calls
        (sending test_deps silent [] (7 ∷ []) socket small)
      ≡ some next)
    × (next
        ≡ sending test_deps silent queued
            (7 ∷ [] ++ all_bytes gone)
            socket
            (record small { draws = n }))
    × (server_messages (all_bytes (gone ++ queued)) ≡ said calls)
run-Channel_example =
    run-Channel test_deps silent socket (7 ∷ []) small calls (omega arith) (omega arith)
      calls-SendableOp

run-delivers_example :
    (next : State ℕ) × (n k : ℕ) × (wire : List ℕ) × (run test_deps silent calls
        (sending test_deps silent [] (7 ∷ []) socket small)
      ≡ some next)
    × (k ≡ length next.client.output_events)
    × (turns test_deps silent k next
        ≡ sending test_deps silent [] (7 ∷ [] ++ wire) socket (record small { draws = n }))
    × (server_messages wire ≡ said calls)
run-delivers_example =
    run-delivers test_deps silent socket (7 ∷ []) small calls (omega arith) (omega arith)
      calls-SendableOp
