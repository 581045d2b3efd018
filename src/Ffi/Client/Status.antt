-- ===== src/Ffi/Client/Status.antt =====
-- What a C program learns from the status of `wssclient_loop` (websocket/src/ffi/sync/client.rs).
use websocket_std.Prelude.{◌≡◌, refl, sym, ap, ◌∙◌}
use websocket_std.Outcome.{
  Outcome, ok, err, panic, WebSocketResult, WebSocketError, unreachable_host, hand_shake,
  invalid_frame, connection_close, decoding_from_utf8, io_error,
}
use websocket_std.Ffi.Common.{
  WsStatus, ok_status, unreachable_host_status, hand_shake_status, invalid_frame_status,
  connection_close_status, decoding_from_utf8_status, io_error_status, rust_error_to_c_error,
}
use websocket_std.Ffi.Client.{status_of, wssclient_loop}
use websocket_std.Sync.Deps.{Deps}
use websocket_std.Sync.State.{State, React}
use websocket_std.Sync.EventLoop.{event_loop}

-- The result that a status stands for.
abbrev pub meaning : WsStatus → WebSocketResult (Unit {0})
meaning ok_status = ok tt
meaning unreachable_host_status = err unreachable_host
meaning hand_shake_status = err hand_shake
meaning invalid_frame_status = err invalid_frame
meaning connection_close_status = err connection_close
meaning decoding_from_utf8_status = err decoding_from_utf8
meaning io_error_status = err io_error

meaning-error : (e : WebSocketError) → meaning (rust_error_to_c_error e) ≡ err e
unfolding rust_error_to_c_error
meaning-error unreachable_host = refl
meaning-error hand_shake = refl
meaning-error invalid_frame = refl
meaning-error connection_close = refl
meaning-error decoding_from_utf8 = refl
meaning-error io_error = refl

abbrev back : Outcome ⊥ WsStatus → WebSocketResult (Unit {0})
back (ok code) = meaning code
back _ = panic

meaning-status_of :
    (r : WebSocketResult (Unit {0})) (code : WsStatus) → status_of r ≡ ok code → meaning code ≡ r
meaning-status_of (ok u) code h = sym (ap back h)
meaning-status_of (err e) code h = sym (ap back h) ∙ meaning-error e
meaning-status_of panic code h = cc

-- Each status that `wssclient_loop` returns stands for the result of `event_loop` and for no other:
-- success is the one status for success, and no two errors have the same.
pub wssclient_loop-meaning :
    {T : Type 0} (deps : Deps) (react : React T) (s : State T) (code : WsStatus)
    → (wssclient_loop deps react s).0 ≡ ok code
    → (event_loop deps react s).0 ≡ meaning code
unfolding wssclient_loop
wssclient_loop-meaning deps react s code h =
    sym (meaning-status_of (event_loop deps react s).0 code h)
