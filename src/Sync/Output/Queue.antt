-- ===== src/Sync/Output/Queue.antt =====
-- `WSClient::pop_output_event` (websocket/src/sync/client.rs).
use websocket_std.Prelude.{
  ◌≡◌, refl, sym, List, [], ◌∷◌, Option, none, some, true, false, Bool-cases, inl, inr,
}
use websocket_std.Outcome.{ok}
use websocket_std.Sync.State.{
  State, WsClient, Event, is_websocket_data, ConnectionStatus, not_init, start_init, handshake,
  opened, client_wants_to_close, server_wants_to_close, closed,
}
use websocket_std.Sync.Output.{pop_output_event, pop_from}

abbrev Free : ConnectionStatus → Event → Type 0
Free handshake event = is_websocket_data event ≡ false
Free _ event = Unit

abbrev Blocked : ConnectionStatus → List Event → Type 0
Blocked st [] = Unit
Blocked handshake (event ∷ events) = is_websocket_data event ≡ true
Blocked st (event ∷ events) = ⊥

-- From a queue, in a state of the connection, an event was taken and `rest` is left: the event is the
-- first, and no frame while the handshake lasts; there is none only where the queue is empty, or where
-- the handshake lasts and a frame is the first.
abbrev pub Took : ConnectionStatus → List Event → Option Event → List Event → Type 0
Took st events none rest = (events ≡ rest) × Blocked st events
Took st events (some event) rest = (events ≡ event ∷ rest) × Free st event

module _ {T : Type 0} where
  pop_from-Took :
      (st : ConnectionStatus) (events : List Event) (c : WsClient T)
      → c.connection_status ≡ st
      → c.output_events ≡ events
      → Took st events (pop_from events c).0 (pop_from events c).1.output_events
  pop_from-Took st [] c e q = (sym q, tt)
  pop_from-Took handshake (event ∷ events) c e q = elim (Bool-cases (is_websocket_data event)) [
    | inl frame ↦ rw (e, frame) (sym q, frame)
    | inr other ↦ rw (e, other) (refl, other)
  ]
  pop_from-Took not_init (event ∷ events) c e q = rw e (refl, tt)
  pop_from-Took start_init (event ∷ events) c e q = rw e (refl, tt)
  pop_from-Took opened (event ∷ events) c e q = rw e (refl, tt)
  pop_from-Took client_wants_to_close (event ∷ events) c e q = rw e (refl, tt)
  pop_from-Took server_wants_to_close (event ∷ events) c e q = rw e (refl, tt)
  pop_from-Took closed (event ∷ events) c e q = rw e (refl, tt)

  -- Events leave the queue of the client in order, one at a time and none lost, and none of them is a
  -- frame while the handshake lasts; an event stays behind only for that reason.
  pub pop_output_event-Took :
      (s : State T)
      → (event : Option Event) × ((pop_output_event s).0 ≡ ok event)
        × Took s.client.connection_status s.client.output_events event
            (pop_output_event s).1.client.output_events
  unfolding pop_output_event
  pop_output_event-Took s = (
    (pop_from s.client.output_events s.client).0,
    refl,
    pop_from-Took s.client.connection_status s.client.output_events s.client refl refl,
  )
