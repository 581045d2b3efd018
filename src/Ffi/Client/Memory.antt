-- ===== src/Ffi/Client/Memory.antt =====
-- The clients that a C program has allocated with `wssclient_new`, and the calls through its pointers
-- (websocket/src/ffi/sync/client.rs).
use websocket_std.Prelude.{ℕ, List, [], ◌∷◌, Option, none, some, Bool, ◌==◌, if◌then◌else◌}
use websocket_std.Outcome.{WebSocketResult}
use websocket_std.Http.Headers.{Text}
use websocket_std.Sync.Deps.{Deps}
use websocket_std.Sync.State.{
  State, WsClient, Connect, React, new, Progress, going, hung, unwinding,
}
use websocket_std.Sync.Tcp.{TcpStream}
use websocket_std.Sync.Drop.{drop}

-- How a call ends: it returns, or it reads or writes memory that is not the program's, or the fuel of
-- a loop in it is used up, or a callback in it never returns or panics, which an `extern "C"` function
-- does not let out.
pub data Call (A : Type 0) : Type 0 where
  returned : A → Call A
  undefined_behaviour out_of_fuel no_return : Call A

abbrev if_returned : {A : Type 0} → Progress → A → Call A
if_returned going a = returned a
if_returned hung a = no_return
if_returned unwinding a = no_return

-- The allocated clients by their addresses, and what a `State` has beside the client.
pub record Process (T : Type 0) : Type 0 where
  pub clients : List (ℕ × WsClient T)
  pub connects : List Connect
  pub draws : ℕ
  pub cells : List ℕ
  pub printed : Text
  pub given_up : List TcpStream

module _ {T : Type 0} where
  abbrev pub find_client : ℕ → List (ℕ × WsClient T) → Option (WsClient T)
  find_client pointer [] = none
  find_client pointer ((at, c) ∷ rest) = if at == pointer then some c else find_client pointer rest

  abbrev pub put_client : ℕ → WsClient T → List (ℕ × WsClient T) → List (ℕ × WsClient T)
  put_client pointer new_c [] = []
  put_client pointer new_c ((at, c) ∷ rest) =
      (at, if at == pointer then new_c else c) ∷ put_client pointer new_c rest

  abbrev pub free_client : ℕ → List (ℕ × WsClient T) → List (ℕ × WsClient T)
  free_client pointer [] = []
  free_client pointer ((at, c) ∷ rest) =
      let later = free_client pointer rest in if at == pointer then later else (at, c) ∷ later

  abbrev pub state_of : WsClient T → Process T → State T
  state_of c p = record {
    client = c;
    connects = p.connects;
    draws = p.draws;
    cells = p.cells;
    printed = p.printed;
    progress = going;
    given_up = p.given_up;
  }

  -- `&mut *client`.
  abbrev pub borrow_at :
      {A : Type 0}
      → (State T → A × State T)
      → ℕ
      → Process T
      → Option (WsClient T)
      → Call (A × Process T)
  borrow_at f pointer p none = undefined_behaviour
  borrow_at f pointer p (some c) =
      let (a, s) = f (state_of c p) in
      if_returned s.progress (
        a,
        record {
          clients = put_client pointer s.client p.clients;
          connects = s.connects;
          draws = s.draws;
          cells = s.cells;
          printed = s.printed;
          given_up = s.given_up;
        },
      )

  unfoldable pub borrow :
      {A : Type 0} → (State T → A × State T) → ℕ → Process T → Call (A × Process T)
  borrow f pointer p = borrow_at f pointer p (find_client pointer p.clients)

  -- The memory when a client has been dropped.
  abbrev dropped :
      {A : Type 0}
      → (WebSocketResult (Unit {0}) → A)
      → List (ℕ × WsClient T)
      → Option (WebSocketResult (Unit {0}) × State T)
      → Call (A × Process T)
  dropped result clients none = out_of_fuel
  dropped result clients (some (r, s)) = if_returned s.progress (
    result r,
    record {
      clients = clients;
      connects = s.connects;
      draws = s.draws;
      cells = s.cells;
      printed = s.printed;
      given_up = s.given_up;
    },
  )

module _ {T : Type 0} (deps : Deps) (react : React T) (elapsed : ℕ → ℕ) (fuel : ℕ) where
  -- `alloc` gives an address or null, to which the client is copied; the client that was copied is
  -- dropped at the end of the function.
  abbrev copy_to : Option ℕ → Process T → Call (Option ℕ × Process T)
  copy_to none p = undefined_behaviour
  copy_to (some pointer) p =
      dropped (λ r. some pointer) ((pointer, new) ∷ p.clients)
        (drop deps react elapsed fuel (state_of new p))

  unfoldable pub wssclient_new :
      (layout_error : Bool) (allocated : Option ℕ) → Process T → Call (Option ℕ × Process T)
  wssclient_new layout_error allocated p =
      if layout_error then returned (none, p) else copy_to allocated p

  abbrev drop_at :
      ℕ → Process T → Option (WsClient T) → Call (WebSocketResult (Unit {0}) × Process T)
  drop_at pointer p none = undefined_behaviour
  drop_at pointer p (some c) =
      dropped (λ r. r) (free_client pointer p.clients) (drop deps react elapsed fuel (state_of c p))

  -- `Box::from_raw`, and the end of the box.
  unfoldable pub wssclient_drop : ℕ → Process T → Call (WebSocketResult (Unit {0}) × Process T)
  wssclient_drop pointer p = drop_at pointer p (find_client pointer p.clients)
