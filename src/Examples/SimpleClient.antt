-- ===== src/Examples/SimpleClient.antt =====
-- examples/simple_client.rs: one client, driven for ten seconds.
pub mod Callback
pub mod Calls
pub mod Runs
use websocket_std.Prelude.{
  ℕ, zero, suc, ◌+◌, ◌*◌, ◌^◌, List, [], ◌∷◌, ◌++◌, length, Option, none, some, ltb, if◌then◌else◌,
  get_or,
}
use websocket_std.Outcome.{WebSocketResult, ok, err, panic, expect}
use websocket_std.Http.Headers.{Text}
use websocket_std.Std.Str.{codes}
use websocket_std.Std.Str.Decimal.{decimal}
use websocket_std.Sync.Deps.{Deps}
use websocket_std.Sync.State.{
  State, WsClient, Config, WsEvent, on_connect as connect_event, on_text as text_event,
  on_close as close_event, Reason, server_close, client_close, React, new, init, protocol,
}
use websocket_std.Sync.Exec.{Exec, pure, lift, gets, ◌>>=◌, ◌>>◌}
use websocket_std.Sync.Send.{send}
use websocket_std.Sync.EventLoop.{event_loop}
use websocket_std.Sync.Drop.{drop}
use websocket_std.Examples.Shared.{print, println, count_one, new_cell, left_by, as_seen}

unfoldable pub on_message : Text → Option ℕ → Exec ℕ (Unit {0})
on_message msg data_of = do
  cell ← lift (expect data_of)
  count_one cell
  println (codes "[SERVER]: " ++ msg)

abbrev accepted : Option Text → Text
accepted none = codes "--"
accepted (some name) = name

abbrev print_message : Option Text → Exec ℕ (Unit {0})
print_message none = pure tt
print_message (some msg) = println (codes "Message received on connect: " ++ msg)

abbrev pub hello_world : Text
hello_world = codes "Hello world"

-- Up to the call of `send`.
unfoldable pub greet : Option Text → Exec ℕ (Unit {0})
greet msg = do
  println (codes "Connected")
  name ← gets (λ c. accepted (protocol c))
  println (codes "Accepted protocol: " ++ name)
  print_message msg

who : Reason → Text
who (server_close code) = codes "server"
who (client_close code) = codes "client"

code_of : Reason → ℕ
code_of (server_close code) = code
code_of (client_close code) = code

unfoldable pub on_close : Reason → Exec ℕ (Unit {0})
unfolding who code_of
on_close reason = println (
    codes "Connection closed by " ++ (who reason ++ (codes ", code: " ++ decimal (code_of reason))))

abbrev pub ten_seconds : ℕ
ten_seconds = 10 * 10 ^ 9

-- The one function that a callback's pointer stands for.
abbrev handler_pointer : ℕ
handler_pointer = 1

module _ (deps : Deps) where
  unfoldable pub on_connect : Option Text → State ℕ → Option (WebSocketResult (Unit {0}) × State ℕ)
  on_connect msg s = send deps (length hello_world + 1) hello_world (greet msg s).1

  unfoldable pub websocket_handler :
      WsEvent → Option ℕ → State ℕ → Option (WebSocketResult (Unit {0}) × State ℕ)
  websocket_handler (connect_event msg) data_of s = on_connect msg s
  websocket_handler (text_event msg) data_of s = some (on_message msg data_of s)
  websocket_handler (close_event reason) data_of s = some (on_close reason s)

  abbrev pub callback : React ℕ
  callback pointer event data_of s = left_by s (websocket_handler event data_of s)

  -- The loop, on fuel: `elapsed n` are the nanoseconds that have passed at its n-th round.
  unfoldable pub main_loop :
      (ℕ → ℕ) → ℕ → ℕ → State ℕ → Option (WebSocketResult (Unit {0}) × State ℕ)
  main_loop elapsed zero n s = none
  main_loop elapsed (suc fuel) n s =
      let (r, t) = event_loop deps callback s in
      if ltb ten_seconds (elapsed n) then some (ok tt, s) else elim (as_seen t.progress r) [
        | none ↦ none
        | some (ok _) ↦ main_loop elapsed fuel (n + 1) t
        | some (err e) ↦ some (err e, t)
        | some panic ↦ some (panic, t)
      ]

  abbrev pub start : ℕ → State ℕ → State ℕ
  start cell s = record s {
    client =
        init (codes "localhost") 3000 (codes "/")
          (some (record {
            callback = some handler_pointer;
            cb_data = some cell;
            protocols = some (codes "chat" ∷ codes "superchat" ∷ []);
          }))
          new;
  }

  -- The count is printed where the loop has ended well.
  abbrev pub print_count : ℕ → WebSocketResult (Unit {0}) → State ℕ → State ℕ
  print_count cell (ok _) s =
      (print (codes "Count: " ++ (decimal (get_or s.cells cell 0) ++ 10 ∷ [])) s).1
  print_count cell (err e) s = s
  print_count cell panic s = s

  -- A panic of the destructor is one of the program.
  abbrev pub ended :
      WebSocketResult (Unit {0}) → WebSocketResult (Unit {0}) → WebSocketResult (Unit {0})
  ended r (ok _) = r
  ended r (err e) = r
  ended r panic = panic

  module _ (elapsed drop_elapsed : ℕ → ℕ) (fuel drop_fuel : ℕ) where
    -- The client is dropped at the end.
    abbrev pub leave :
        ℕ
        → Option (WebSocketResult (Unit {0}) × State ℕ)
        → Option (WebSocketResult (Unit {0}) × State ℕ)
    leave cell none = none
    leave cell (some (r, s)) =
        elim (drop deps callback drop_elapsed drop_fuel (print_count cell r s)) [
          | none ↦ none
          | some (q, t) ↦ elim (as_seen t.progress q) [
            | none ↦ none
            | some last ↦ some (ended r last, t)
          ]
        ]

    unfoldable pub main : State ℕ → Option (WebSocketResult (Unit {0}) × State ℕ)
    main s = let (cell, s1) = new_cell s in leave cell (main_loop elapsed fuel 0 (start cell s1))
