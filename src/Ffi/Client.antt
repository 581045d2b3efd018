-- ===== src/Ffi/Client.antt =====
-- websocket/src/ffi/sync/client.rs. The functions get the client that the pointer points to, and C
-- strings as their bytes.
pub mod Status
pub mod Memory
use websocket_std.Prelude.{ℕ, List, Option, none, some}
use websocket_std.Outcome.{WebSocketResult, ok, err, panic, Outcome}
use websocket_std.Std.Utf8.{from_utf8}
use websocket_std.Http.Headers.{Text}
use websocket_std.Ffi.Common.{WsStatus, ok_status, rust_error_to_c_error}
use websocket_std.Sync.Deps.{Deps}
use websocket_std.Sync.State.{State, WsClient, Config, React, init}
use websocket_std.Sync.Send.{send}
use websocket_std.Sync.EventLoop.{event_loop}

abbrev pub status_of : WebSocketResult (Unit {0}) → Outcome ⊥ WsStatus
status_of (ok _) = ok ok_status
status_of (err e) = ok (rust_error_to_c_error e)
status_of panic = panic

module _ {T : Type 0} (deps : Deps) (react : React T) where
  unfoldable pub wssclient_loop : State T → Outcome ⊥ WsStatus × State T
  wssclient_loop s = (status_of (event_loop deps react s).0, (event_loop deps react s).1)

  -- `str::from_utf8(message).unwrap()`.
  send_text : ℕ → Option Text → State T → Option (WebSocketResult (Unit {0}) × State T)
  send_text fuel none s = some (panic, s)
  send_text fuel (some msg) s = send deps fuel msg s

  unfoldable pub wssclient_send :
      ℕ → List ℕ → State T → Option (WebSocketResult (Unit {0}) × State T)
  unfolding send_text
  wssclient_send fuel message s = send_text fuel (from_utf8 message) s

module _ {T : Type 0} where
  c_config : ℕ → Config T
  c_config callback = record { callback = some callback; cb_data = none; protocols = none }

  init_texts : Option Text → ℕ → Option Text → ℕ → WsClient T → Outcome ⊥ (WsClient T)
  unfolding c_config
  init_texts (some host) port (some path) callback c =
      ok (init host port path (some (c_config callback)) c)
  init_texts (some host) port none callback c = panic
  init_texts none port path callback c = panic

  unfoldable pub wssclient_init : List ℕ → ℕ → List ℕ → ℕ → WsClient T → Outcome ⊥ (WsClient T)
  unfolding init_texts
  wssclient_init host port path callback c =
      init_texts (from_utf8 host) port (from_utf8 path) callback c
