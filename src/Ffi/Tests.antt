-- ===== src/Ffi/Tests.antt =====
-- Events of websocket/src/ffi/common.rs on concrete texts.
use websocket_std.Prelude.{◌⊎◌, ◌≡◌, [], ◌∷◌}
use websocket_std.Prelude.{◌⊎◌, ℕ, refl}
use websocket_std.Sync.State.{new}
use websocket_std.Sync.EventLoop.{event_loop, loop_at}
use websocket_std.Sync.Tests.{test_deps, silent}
use websocket_std.Ffi.Common.{ok_status}
use websocket_std.Ffi.Client.{wssclient_loop}
use websocket_std.Ffi.Client.Memory.{Process, returned, borrow}
use websocket_std.Outcome.{ok}
use websocket_std.Http.Headers.{Text}

-- A space, a NUL and a letter.
abbrev with_nul : Text
with_nul = 32 ∷ 0 ∷ 97 ∷ []

-- Two clients that have not been started.
abbrev two_clients : Process ℕ
two_clients = record {
  clients = (16, new) ∷ (32, new) ∷ [];
  connects = [];
  draws = 0;
  cells = [];
  printed = [];
  given_up = [];
}

loops_once :
    borrow (wssclient_loop test_deps silent) 16 two_clients ≡ returned (ok ok_status, two_clients)
unfolding borrow wssclient_loop event_loop loop_at new
loops_once = refl
