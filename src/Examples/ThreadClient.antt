-- ===== src/Examples/ThreadClient.antt =====
-- examples/thread_client.rs: two clients, each driven by a thread, that count in one number. The threads
-- take turns: in a turn a thread runs one round of its loop, or drops its client. They share the
-- number, what is printed, and the operating system.
pub mod Turns
use websocket_std.Prelude.{
  ℕ, ◌+◌, ◌/◌, ◌^◌, List, [], ◌∷◌, ◌++◌, length, Option, none, some, leb, if◌then◌else◌, get_or,
}
use websocket_std.Outcome.{WebSocketResult, ok, err, panic, expect}
use websocket_std.Outcome.Display.{to_string}
use websocket_std.Http.Headers.{Text}
use websocket_std.Std.Str.{codes}
use websocket_std.Std.Str.Decimal.{decimal}
use websocket_std.Sync.Deps.{Deps}
use websocket_std.Sync.State.{
  State, WsClient, Connect, WsEvent, going, on_connect as connect_event, on_text as text_event,
  on_close as close_event, Reason, React, new, init, protocol,
}
use websocket_std.Sync.Exec.{Exec, lift, ◌>>=◌, ◌>>◌}
use websocket_std.Sync.EventLoop.{event_loop}
use websocket_std.Sync.Drop.{drop}
use websocket_std.Sync.Tcp.{TcpStream}
use websocket_std.Examples.Shared.{print, println, count_one, left_by, as_seen}
use websocket_std.Examples.SimpleClient

-- `lock` in place of `borrow_mut`: no thread panics while it has the lock.
unfoldable pub on_message : Text → Option ℕ → Exec ℕ (Unit {0})
on_message msg data_of = do
  cell ← lift (expect data_of)
  count_one cell
  println (codes "[SERVER]: " ++ msg)

-- The same text as in examples/simple_client.rs.
abbrev pub on_close : Reason → Exec ℕ (Unit {0})
on_close = SimpleClient.on_close

module _ (deps : Deps) where
  -- The same text as in examples/simple_client.rs.
  abbrev pub on_connect : Option Text → State ℕ → Option (WebSocketResult (Unit {0}) × State ℕ)
  on_connect = SimpleClient.on_connect deps

  unfoldable pub websocket_handler :
      WsEvent → Option ℕ → State ℕ → Option (WebSocketResult (Unit {0}) × State ℕ)
  websocket_handler (connect_event msg) data_of s = on_connect msg s
  websocket_handler (text_event msg) data_of s = some (on_message msg data_of s)
  websocket_handler (close_event reason) data_of s = some (on_close reason s)

  abbrev pub callback : React ℕ
  callback pointer event data_of s = left_by s (websocket_handler event data_of s)

-- Where a thread is: before a round of its loop, behind the loop, at its end, or in a call of its
-- callback that does not return.
pub data Phase : Type 0 where
  working : ℕ → Phase
  leaving ended stuck : Phase

-- The clocks of a thread: the nanoseconds since its start at the n-th round of its loop, and the seconds
-- since the start of its destructor at the n-th round of that.
pub record Clocks : Type 0 where
  pub elapsed : ℕ → ℕ
  pub drop_elapsed : ℕ → ℕ

pub record Thread : Type 0 where
  pub client : WsClient ℕ
  pub phase : Phase

-- What the threads share.
pub record World : Type 0 where
  pub connects : List Connect
  pub draws : ℕ
  pub cells : List ℕ
  pub printed : Text
  pub given_up : List TcpStream

abbrev pub join_world : WsClient ℕ → World → State ℕ
join_world c w = record {
  client = c;
  connects = w.connects;
  draws = w.draws;
  cells = w.cells;
  printed = w.printed;
  progress = going;
  given_up = w.given_up;
}

abbrev pub part : Phase → State ℕ → Thread × World
part phase s = (
  record { client = s.client; phase = phase },
  record {
    connects = s.connects;
    draws = s.draws;
    cells = s.cells;
    printed = s.printed;
    given_up = s.given_up;
  },
)

module _ (deps : Deps) (clocks : Clocks) (fuel : ℕ) where
  -- A round of the loop. A panic ends the thread, and the client is dropped as well.
  unfoldable pub worker : ℕ → State ℕ → Thread × World
  worker n s =
      let (r, t) = event_loop deps (callback deps) s in
      if leb 10 (clocks.elapsed n / 10 ^ 9) then part leaving s else elim (as_seen t.progress r) [
        | none ↦ part stuck t
        | some (ok _) ↦ part (working (n + 1)) t
        | some (err e) ↦ part leaving (print (to_string e) t).1
        | some panic ↦ part leaving t
      ]

  -- The client is dropped when its thread ends.
  unfoldable pub drop_client : State ℕ → Thread × World
  drop_client s = elim (drop deps (callback deps) clocks.drop_elapsed fuel s) [
    | none ↦ part leaving s
    | some (r, t) ↦ elim (as_seen t.progress r) [ none ↦ part stuck t | some last ↦ part ended t ]
  ]

  unfoldable pub turn : Thread → World → Thread × World
  turn t w = elim t.phase [
    | working n ↦ worker n (join_world t.client w)
    | leaving ↦ drop_client (join_world t.client w)
    | ended ↦ (t, w)
    | stuck ↦ (t, w)
  ]

-- Which thread runs next.
pub data Turn : Type 0 where
  first second : Turn

pub record Program : Type 0 where
  pub one : Thread
  pub two : Thread
  pub world : World

-- Each thread has its own clocks.
module _ (deps : Deps) (clocks_of_one clocks_of_two : Clocks) (fuel : ℕ) where
  abbrev pub take_turn : Turn → Program → Program
  take_turn first p =
      let (t, w) = turn deps clocks_of_one fuel p.one p.world in record p { one = t; world = w }
  take_turn second p =
      let (t, w) = turn deps clocks_of_two fuel p.two p.world in record p { two = t; world = w }

  abbrev pub run : List Turn → Program → Program
  run [] p = p
  run (next ∷ turns) p = run turns (take_turn next p)

  -- A client before its thread starts.
  abbrev client_at : ℕ → WsClient ℕ
  client_at cell =
      init (codes "localhost") 3000 (codes "/")
        (some (record {
          callback = some 1;
          cb_data = some cell;
          protocols = some (codes "chat" ∷ codes "superchat" ∷ []);
        }))
        new

  abbrev protocol_line : Option Text → Text
  protocol_line none = []
  protocol_line (some name) = codes "Accepted protocol: " ++ (name ++ codes "\n")

  -- Up to the start of the threads.
  unfoldable pub spawn : World → Program
  spawn w =
      let cell = length w.cells in
      let line = protocol_line (protocol (new {T = ℕ})) in
      record {
        one = record { client = client_at cell; phase = working 0 };
        two = record { client = client_at cell; phase = working 0 };
        world = record w {
          cells = w.cells ++ 0 ∷ [];
          printed = (w.printed ++ codes "Connecting to localhost:3000/\n") ++ line;
        };
      }

  -- When both threads have ended: the number that is printed.
  abbrev pub report : ℕ → Program → World
  report cell p = record p.world {
    printed =
        p.world.printed
        ++ (codes "Total messages received: "
            ++ (decimal (get_or p.world.cells cell 0) ++ codes "\n"));
  }

  abbrev both_ended : ℕ → Phase → Phase → Program → Option World
  both_ended cell ended ended p = some (report cell p)
  both_ended cell _ _ p = none

  -- The program, by the turns of its threads; `none` if these do not end both, as
  -- where a callback does not return.
  unfoldable pub main : List Turn → World → Option World
  main turns w =
      let p = run turns (spawn w) in both_ended (length w.cells) p.one.phase p.two.phase p
