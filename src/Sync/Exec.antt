-- ===== src/Sync/Exec.antt =====
-- Methods of the client (websocket/src/sync/client.rs): they change the state, and what was changed
-- before an error or a panic stays changed.
use websocket_std.Prelude.{ℕ, [], ◌∷◌, ◌++◌, Option, none, some}
use websocket_std.Outcome.{WebSocketError, WebSocketResult, ok, err, panic}
use websocket_std.Sync.State.{State, WsClient, Event, WsEvent, React, ConnectionStatus}

abbrev pub Exec : Type 0 → Type 0 → Type 0
Exec T A = State T → WebSocketResult A × State T

module _ {T A : Type 0} where
  abbrev pub pure : A → Exec T A
  pure a s = (ok a, s)

  abbrev pub fail : WebSocketError → Exec T A
  fail e s = (err e, s)

  abbrev pub lift : WebSocketResult A → Exec T A
  lift r s = (r, s)

  abbrev pub gets : (WsClient T → A) → Exec T A
  gets f s = (ok (f s.client), s)

module _ {T A B : Type 0} where
  abbrev pub continue : WebSocketResult A → (A → Exec T B) → Exec T B
  continue (ok a) f s = f a s
  continue (err e) f s = (err e, s)
  continue panic f s = (panic, s)

  infixl 5 ◌>>=◌ ◌>>◌
  abbrev pub ◌>>=◌ : Exec T A → (A → Exec T B) → Exec T B
  ◌>>=◌ m f s = continue (m s).0 f (m s).1

  abbrev pub ◌>>◌ : Exec T A → Exec T B → Exec T B
  m >> n = m >>= λ _. n

module _ {T : Type 0} where
  abbrev pub modify : (WsClient T → WsClient T) → Exec T (Unit {0})
  modify f s = (ok tt, record s { client = f s.client })

  abbrev pub set_status : ConnectionStatus → Exec T (Unit {0})
  set_status status = modify λ c. record c { connection_status = status }

  abbrev pub push_front_output : Event → Exec T (Unit {0})
  push_front_output event = modify λ c. record c { output_events = event ∷ c.output_events }

  abbrev pub push_back_output : Event → Exec T (Unit {0})
  push_back_output event = modify λ c. record c { output_events = c.output_events ++ event ∷ [] }

  -- `if let Some(callback) = self.callback { callback(self, &event, self.cb_data.clone()) }`
  abbrev pub notify_with : React T → WsEvent → Option ℕ → Exec T (Unit {0})
  notify_with react event none s = (ok tt, s)
  notify_with react event (some pointer) s = (ok tt, react pointer event s.client.cb_data s)

  abbrev pub notify : React T → WsEvent → Exec T (Unit {0})
  notify react event s = notify_with react event s.client.callback s
