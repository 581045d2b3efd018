-- ===== src/Examples/Tests.antt =====
-- The programs of examples on concrete states.
use websocket_std.Prelude.{ℕ, ◌≡◌, refl, List, [], ◌∷◌, ◌++◌, some, none, true, false, arith}
use websocket_std.Outcome.{ok}
use websocket_std.Core.Net.{got}
use websocket_std.Std.Utf8.{is_utf8}
use websocket_std.Std.Str.{codes}
use websocket_std.WsBasic.Header
use websocket_std.WsBasic.Header.{fin, text, length_bytes}
use websocket_std.WsBasic.Frame
use websocket_std.WsBasic.Frame.{data_frame, new_data}
use websocket_std.Sync.Tcp.{TcpStream}
use websocket_std.Sync.State.{State, Event, on_connect, opened, new}
use websocket_std.Sync.Send.Fragments.{Fragments}
use websocket_std.Sync.EventLoop.{event_loop}
use websocket_std.Sync.Tests.{test_deps, socket, at, hi}
use websocket_std.Examples.SimpleClient
use websocket_std.Examples.SimpleClient.{hello_world}
use websocket_std.Examples.SimpleClient.Callback.{
  greeted, websocket_handler-connect, event_loop-counts,
}
use websocket_std.Prelude.{◌*◌, ◌^◌, List, get_or}
use websocket_std.Std.Str.Decimal.{decimal}
use websocket_std.Outcome.{WebSocketResult}
use websocket_std.Examples.SimpleClient.Runs.{main_ends}
use websocket_std.Examples.ThreadClient
use websocket_std.Examples.ThreadClient.{Turn, first, second, World, Clocks, run, spawn}
use websocket_std.Examples.ThreadClient.Turns.{turns_end}
use websocket_std.Examples.SimpleClient.Calls.{websocket_handler-returns}

-- A client whose callback counts in the second of two cells.
abbrev arriving : TcpStream
arriving = record socket { incoming = got (2 ∷ 0x68 ∷ 0x69 ∷ 7 ∷ []) ∷ [] }

abbrev counting : State ℕ
counting = record (at opened arriving) {
  cells = 4 ∷ 0 ∷ [];
  client = record (at opened arriving).client {
    recv_storage = 0x81 ∷ [];
    cb_data = some 1;
    message_size = 4;
  };
}

hi_utf8 : is_utf8 hi ≡ true
unfolding is_utf8
hi_utf8 = refl

whole :
    (0x81 ∷ []) ++ 2 ∷ 0x68 ∷ 0x69 ∷ 7 ∷ []
    ≡ Frame.serialize (data_frame (new_data fin text hi false none [])) ++ 7 ∷ []
unfolding Frame.serialize Header.serialize length_bytes new_data
whole = refl

event_loop-counts_example : event_loop test_deps (SimpleClient.callback test_deps) counting ≡ (
  ok tt,
  record counting {
    cells = 4 ∷ 1 ∷ [];
    printed = codes "[SERVER]: hi\n";
    client = record counting.client {
      recv_storage = 7 ∷ [];
      stream = some (record arriving { incoming = [] });
    };
  },
)
unfolding new
event_loop-counts_example =
    event_loop-counts test_deps text hi (7 ∷ []) 2 (0x68 ∷ 0x69 ∷ 7 ∷ []) arriving [] 1 1 counting
      refl (omega arith) hi_utf8 refl refl refl (omega arith) whole refl refl refl refl refl

websocket_handler-connect_example :
    (n : ℕ) × (events : List Event) × (SimpleClient.websocket_handler test_deps
        (on_connect (some hi))
        (some 0)
        counting
      ≡ some (
        ok tt,
        record counting {
          draws = n;
          printed = greeted none (some hi) [];
          client = record counting.client { output_events = [] ++ events };
        },
      ))
    × Fragments 4 true hello_world events
unfolding new
websocket_handler-connect_example =
    websocket_handler-connect test_deps (some hi) (some 0) counting (omega arith) (omega arith) refl

websocket_handler-returns_example :
    (t : State ℕ) × (SimpleClient.websocket_handler test_deps
        (on_connect (some hi))
        (some 0)
        counting
      ≡ some (ok tt, t))
websocket_handler-returns_example =
    websocket_handler-returns test_deps (on_connect (some hi)) 0 counting (omega arith)
      (omega arith)

-- A clock that is read every four seconds.
abbrev nanoseconds : ℕ → ℕ
nanoseconds n = n * (4 * 10 ^ 9)

main_ends_example :
    (r : WebSocketResult (Unit {0}) × State ℕ) × (SimpleClient.main test_deps nanoseconds
        (λ n. n * 30)
        4
        2
        counting
      ≡ some r)
main_ends_example =
    main_ends test_deps nanoseconds (λ n. n * 30) 4 2 3 1 counting refl (omega arith) (omega arith)
      (omega arith) (omega arith)

-- The second thread has a slower clock.
abbrev slow : Clocks
slow = record { elapsed = λ n. n * (3 * 10 ^ 9); drop_elapsed = λ n. n * 10 }

abbrev fast : Clocks
fast = record { elapsed = nanoseconds; drop_elapsed = λ n. n * 30 }

abbrev turns : List Turn
turns =
    first ∷ first ∷ second ∷ first ∷ second ∷ second ∷ first ∷ first ∷ second ∷ second ∷ second ∷ []

abbrev world : World
world = record { connects = []; draws = 0; cells = []; printed = []; given_up = [] }

turns_end_example :
    let last : World =
      (run test_deps fast slow 4 turns (spawn test_deps fast slow 4 world)).world in
    ThreadClient.main test_deps fast slow 4 turns world
    ≡ some (record last {
      printed =
          last.printed
          ++ (codes "Total messages received: " ++ (decimal (get_or last.cells 0 0) ++ codes "\n"));
    })
turns_end_example =
    turns_end test_deps fast slow 4 3 1 4 3 (omega arith, omega arith) (omega arith, omega arith)
      (omega arith) (omega arith) turns world (omega arith) (omega arith)
