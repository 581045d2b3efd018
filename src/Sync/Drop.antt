-- ===== src/Sync/Drop.antt =====
-- `Drop` for `WSClient` (websocket/src/sync/client.rs): the close handshake that the client starts.
use websocket_std.Prelude.{
  ℕ, zero, suc, ◌+◌, [], Option, none, some, Bool, true, false, not, ◌||◌, leb, if◌then◌else◌,
}
use websocket_std.Outcome.{WebSocketResult, ok, err, panic}
use websocket_std.Std.Str.{codes}
use websocket_std.WsBasic.Header.{fin, close}
use websocket_std.WsBasic.Frame.{control_frame, new_control}
use websocket_std.Sync.Deps.{Deps}
use websocket_std.Sync.State.{
  State, websocket_data, React, ConnectionStatus, not_init, handshake, client_wants_to_close,
  closed,
}
use websocket_std.Sync.Exec.{Exec, ◌>>=◌, ◌>>◌, modify, set_status, push_back_output}
use websocket_std.Sync.Send.{draw_mask, is_closed}
use websocket_std.Sync.Output.{with_stream}
use websocket_std.Sync.EventLoop.{event_loop}
use websocket_std.Sync.Tcp.{shutdown}

-- The states in which there is nothing to close.
abbrev pub is_down : ConnectionStatus → Bool
is_down not_init = true
is_down handshake = true
is_down closed = true
is_down _ = false

abbrev pub is_some : {A : Type 0} → Option A → Bool
is_some none = false
is_some (some a) = true

module _ {T : Type 0} (deps : Deps) (react : React T) where
  -- The close frame takes the place of all that is queued.
  unfoldable pub start_close : Exec T (Unit {0})
  start_close = do
    mask ← draw_mask deps
    modify (λ c. record c { output_events = []; input_events = [] })
    push_back_output (
        websocket_data
          (control_frame (new_control fin close (some 1000) (codes "Done") true none mask)))
    set_status client_wants_to_close

  -- The last `shutdown`, whose result is ignored.
  unfoldable pub finish_close : Exec T (Unit {0})
  finish_close s = with_stream s.client.stream (λ t. (ok tt, (shutdown t).1)) s

  -- The loop, on fuel: `elapsed n` are the seconds that have passed when it is run the n-th time.
  unfoldable pub drop_loop :
      (ℕ → ℕ) → ℕ → ℕ → State T → Option (WebSocketResult (Unit {0}) × State T)
  drop_loop elapsed zero n s = none
  drop_loop elapsed (suc fuel) n s =
      if is_closed s.client.connection_status || leb s.client.timeout (elapsed n)
      then some (finish_close s)
      else elim (event_loop deps react s).0 [
        | ok _ ↦ drop_loop elapsed fuel (n + 1) (event_loop deps react s).1
        | err e ↦ some (finish_close (event_loop deps react s).1)
        | panic ↦ some (panic, (event_loop deps react s).1)
      ]

  unfoldable pub drop : (ℕ → ℕ) → ℕ → State T → Option (WebSocketResult (Unit {0}) × State T)
  drop elapsed fuel s =
      if is_down s.client.connection_status || not (is_some s.client.stream)
      then some (ok tt, s)
      else drop_loop elapsed fuel 0 (start_close s).1
