-- ===== src/Sync/Moves.antt =====
-- The states of a connection (`ConnectionStatus`, websocket/src/sync/client.rs) as a machine: the
-- steps, and what every handler of the client keeps.
pub mod Handlers
pub mod Frames
pub mod Loop
pub mod Sends
pub mod Drops
use websocket_std.Prelude.{
  ℕ, ◌<◌, ◌^◌, ◌≡◌, refl, sym, ap, subst, ◌∙◌, List, Option, none, some, Bool, true, false,
  if◌then◌else◌,
}
use websocket_std.Outcome.{WebSocketResult, ok, err, panic}
use websocket_std.Http.Headers.{Text}
use websocket_std.Sync.State.{
  State, WsClient, Progress, WsEvent, React, ConnectionStatus, not_init, start_init, handshake,
  opened, client_wants_to_close, server_wants_to_close, closed,
}
use websocket_std.Sync.Tcp.{TcpStream}
use websocket_std.Sync.Exec.{Exec, continue, ◌>>=◌, notify_with, notify}

pub data Step : ConnectionStatus → ConnectionStatus → Type 0 where
  connects : Step start_init handshake
  opens : Step handshake opened
  server_closes : Step opened server_wants_to_close
  server_closed : Step server_wants_to_close closed
  client_closed : Step client_wants_to_close closed

pub data Steps : ConnectionStatus → ConnectionStatus → Type 0 where
  stay : {a : ConnectionStatus} → Steps a a
  go : {a b c : ConnectionStatus} → Step a b → Steps b c → Steps a c

pub Steps-trans : {a b c : ConnectionStatus} → Steps a b → Steps b c → Steps a c
Steps-trans stay q = q
Steps-trans (go s p) q = go s (Steps-trans p q)

-- The states in which the client reads and writes.
abbrev pub Live : ConnectionStatus → Type 0
Live handshake = Unit
Live opened = Unit
Live client_wants_to_close = Unit
Live server_wants_to_close = Unit
Live _ = ⊥

abbrev pub Present : {A : Type 0} → Option A → Type 0
Present none = ⊥
Present (some a) = Unit

-- A client that reads and writes has a socket.
abbrev pub Socket : {T : Type 0} → State T → Type 0
Socket s = Live s.client.connection_status → Present s.client.stream

-- What only `init` and the setters change.
abbrev pub Settings : Type 0 → Type 0
Settings T = Text × ℕ × Text × ℕ × ℕ × Option T × Option ℕ × Option (List Text)

abbrev pub settings : {T : Type 0} → WsClient T → Settings T
settings c = (
  c.host, c.port, c.path, c.message_size, c.timeout, c.cb_data, c.callback, c.acceptable_protocols,
)

-- The settings of a client that can send, and whose callback has its data.
abbrev pub Sound : {T : Type 0} → Settings T → Type 0
Sound (host, port, path, size, timeout, data_of, callback, protocols) =
    (0 < size) × (size < 2 ^ 64) × Present data_of

abbrev pub kept : {T : Type 0} → State T → Settings T × Progress
kept s = (settings s.client, s.progress)

-- From one state of the client to another: along the steps, with a socket where one is needed, and
-- under the same settings; and no callback has failed to return, if the client is sound.
pub record Moved {T : Type 0} (s t : State T) : Type 0 where
  pub steps : Steps s.client.connection_status t.client.connection_status
  pub socket : Socket s → Socket t
  pub same : settings t.client ≡ settings s.client
  pub fares : Sound (settings s.client) → t.progress ≡ s.progress

abbrev pub Keeps : {T A : Type 0} → Exec T A → Type 0
Keeps {T} m = (s : State T) → Moved s (m s).1

-- A callback that moves the client as the client moves itself, by `send` or `event_loop`, and returns on
-- a client that is sound.
abbrev pub Calm : {T : Type 0} → React T → Type 0
Calm {T} react =
    (pointer : ℕ) (event : WsEvent) (s : State T) → Moved s (react pointer event s.client.cb_data s)

module _ {T : Type 0} where
  pub quiet :
      {s t : State T}
      → t.client.connection_status ≡ s.client.connection_status
      → (Present s.client.stream → Present t.client.stream)
      → kept t ≡ kept s
      → Moved s t
  quiet {s} {t} st sock set = record {
    steps = subst (λ x. Steps s.client.connection_status x) (sym st) stay;
    socket = λ h live. sock (h (subst Live st live));
    same = ap (λ k. k.0) set;
    fares = λ sound. ap (λ k. k.1) set;
  }

  pub Moved-refl : (s : State T) → Moved s s
  Moved-refl s = quiet refl (λ p. p) refl

  pub Moved-trans : {s t u : State T} → Moved s t → Moved t u → Moved s u
  Moved-trans p q = record {
    steps = Steps-trans p.steps q.steps;
    socket = λ h. q.socket (p.socket h);
    same = q.same ∙ p.same;
    fares = λ sound. q.fares (subst Sound (sym p.same) sound) ∙ p.fares sound;
  }

  pub without_socket :
      {s t : State T}
      → t.client.connection_status ≡ s.client.connection_status
      → s.client.connection_status ≡ closed
      → kept t ≡ kept s
      → Moved s t
  without_socket {s} st e set = record {
    steps = subst (λ x. Steps s.client.connection_status x) (sym st) stay;
    socket = λ h live. absurd (subst Live (st ∙ e) live);
    same = ap (λ k. k.0) set;
    fares = λ sound. ap (λ k. k.1) set;
  }

  -- A step whose end needs no more of the socket than its start.
  pub advance :
      {s t : State T}
      → Step s.client.connection_status t.client.connection_status
      → (Socket s → Live t.client.connection_status → Present t.client.stream)
      → kept t ≡ kept s
      → Moved s t
  advance m sock set = record {
    steps = go m stay;
    socket = sock;
    same = ap (λ k. k.0) set;
    fares = λ sound. ap (λ k. k.1) set;
  }

  -- The same, where the state at the start is known.
  pub advance_from :
      {s t : State T} {a : ConnectionStatus}
      → s.client.connection_status ≡ a
      → Step a t.client.connection_status
      → (Socket s → Live t.client.connection_status → Present t.client.stream)
      → kept t ≡ kept s
      → Moved s t
  advance_from {s} {t} e m sock set =
      advance (subst (λ x. Step x t.client.connection_status) (sym e) m) sock set

  pub socket_at :
      (s : State T) {a : ConnectionStatus}
      → s.client.connection_status ≡ a
      → Live a
      → Socket s
      → Present s.client.stream
  socket_at s e live h = h (subst Live (sym e) live)

module _ {T A : Type 0} where
  pub Moved-if :
      (b : Bool) (m n : Exec T A) (s : State T)
      → Moved s (m s).1
      → Moved s (n s).1
      → Moved s ((if b then m else n) s).1
  Moved-if true m n s p q = p
  Moved-if false m n s p q = q

module _ {T A B : Type 0} where
  pub Moved-continue :
      (r : WebSocketResult A) (f : A → Exec T B) {s t : State T}
      → Moved s t
      → ((a : A) → Moved t (f a t).1)
      → Moved s (continue r f t).1
  Moved-continue (ok a) f m k = Moved-trans m (k a)
  Moved-continue (err e) f m k = m
  Moved-continue panic f m k = m

  pub Keeps-bind :
      (m : Exec T A) (f : A → Exec T B) → Keeps m → ((a : A) → Keeps (f a)) → Keeps (m >>= f)
  Keeps-bind m f h k s = Moved-continue (m s).0 f (h s) λ a. k a (m s).1

module _ {T : Type 0} (react : React T) (calm : Calm react) where
  pub notify_with-Keeps : (event : WsEvent) (c : Option ℕ) → Keeps (notify_with react event c)
  notify_with-Keeps event none s = Moved-refl s
  notify_with-Keeps event (some pointer) s = calm pointer event s

  pub notify-Keeps : (event : WsEvent) → Keeps (notify react event)
  notify-Keeps event s = notify_with-Keeps event s.client.callback s
