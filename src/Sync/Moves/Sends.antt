-- ===== src/Sync/Moves/Sends.antt =====
-- What `WSClient::send` (websocket/src/sync/client.rs) keeps, so that a callback may call it.
use websocket_std.Prelude.{
  ℕ, zero, suc, ◌+◌, ◌%◌, ◌^◌, refl, Option, none, some, Bool, true, false, ltb, leb, length,
  if◌then◌else◌,
}
use websocket_std.Outcome.{WebSocketResult, ok, err, panic}
use websocket_std.Http.Headers.{Text}
use websocket_std.Sync.Deps.{Deps}
use websocket_std.Sync.State.{State}
use websocket_std.Sync.Send.{slice_str, send_chunk, send_loop, send, is_closed}
use websocket_std.Sync.Moves.{Moved, Keeps, quiet, Moved-refl, Moved-trans, Moved-continue}

-- Where a call that runs on fuel ends, it has moved the client as a handler does.
abbrev pub MovedIfEnds :
    {T : Type 0} → State T → Option (WebSocketResult (Unit {0}) × State T) → Type 0
MovedIfEnds s none = Unit
MovedIfEnds s (some (r, t)) = Moved s t

pub MovedIfEnds-trans :
    {T : Type 0} (s t : State T) (o : Option (WebSocketResult (Unit {0}) × State T))
    → Moved s t
    → MovedIfEnds t o
    → MovedIfEnds s o
MovedIfEnds-trans s t none m k = tt
MovedIfEnds-trans s t (some (r, u)) m k = Moved-trans m k

module _ {T : Type 0} (deps : Deps) where
  send_chunk-Keeps :
      (size at : ℕ) (payload : Text) → Keeps {T = T} (send_chunk deps size at payload)
  unfolding send_chunk
  send_chunk-Keeps size at payload s =
      Moved-continue
        (slice_str at
          (if leb (length payload) ((at + size) % 2 ^ 64)
            then length payload
            else (at + size) % 2 ^ 64)
          payload)
        _ (Moved-refl s) λ chunk. quiet refl (λ p. p) refl

  -- A round, with what the rest of the loop does.
  round :
      (size at : ℕ) (payload : Text) (s : State T) (more : Bool) (r : WebSocketResult (Unit {0}))
      (rest : Option (WebSocketResult (Unit {0}) × State T))
      → let after : State T = (send_chunk deps size at payload s).1 in
        MovedIfEnds after rest
        → MovedIfEnds s (
            if more
            then elim r [ ok _ ↦ rest | err e ↦ some (err e, after) | panic ↦ some (panic, after) ]
            else some (ok tt, s))
  round size at payload s false r rest h = Moved-refl s
  round size at payload s true (ok _) rest h =
      MovedIfEnds-trans s (send_chunk deps size at payload s).1 rest
        (send_chunk-Keeps size at payload s) h
  round size at payload s true (err e) rest h = send_chunk-Keeps size at payload s
  round size at payload s true panic rest h = send_chunk-Keeps size at payload s

  send_loop-MovedIfEnds :
      (fuel size at : ℕ) (payload : Text) (s : State T)
      → MovedIfEnds s (send_loop deps fuel size at payload s)
  unfolding send_loop
  send_loop-MovedIfEnds zero size at payload s = tt
  send_loop-MovedIfEnds (suc fuel) size at payload s =
      let after : State T = (send_chunk deps size at payload s).1 in
      let next : ℕ = (at + size) % 2 ^ 64 in
      round size at payload s (ltb at (length payload)) (send_chunk deps size at payload s).0
        (send_loop deps fuel size next payload after)
        (send_loop-MovedIfEnds fuel size next payload after)

  pub send-MovedIfEnds :
      (fuel : ℕ) (payload : Text) (s : State T) → MovedIfEnds s (send deps fuel payload s)
  unfolding send
  send-MovedIfEnds fuel payload s = by_status (is_closed s.client.connection_status)
    where
      by_status :
          (down : Bool)
          → MovedIfEnds s (
              if down
              then some (ok tt, s)
              else send_loop deps fuel s.client.message_size 0 payload s)
      by_status true = Moved-refl s
      by_status false = send_loop-MovedIfEnds fuel s.client.message_size 0 payload s
