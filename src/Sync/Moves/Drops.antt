-- ===== src/Sync/Moves/Drops.antt =====
-- What `drop` (websocket/src/sync/client.rs) keeps, where it ends: the settings, and that the callbacks
-- return.
use websocket_std.Prelude.{
  ℕ, zero, suc, ◌+◌, ◌≤◌, ◌<◌, ◌≡◌, refl, sym, subst, ◌∙◌, Option, none, some, Bool, true, false,
  not, ◌||◌, leb, if◌then◌else◌,
}
use websocket_std.Outcome.{WebSocketResult, ok, err, panic}
use websocket_std.Sync.Deps.{Deps}
use websocket_std.Sync.State.{State, React, going}
use websocket_std.Sync.Send.{is_closed}
use websocket_std.Sync.EventLoop.{event_loop}
use websocket_std.Sync.Drop.{drop, drop_loop, start_close, finish_close, is_down, is_some}
use websocket_std.Sync.Moves.{Sound, settings, Moved, Calm}
use websocket_std.Sync.Moves.Handlers.{with_stream-Keeps}
use websocket_std.Sync.Moves.Loop.{event_loop-Moved, drop-ends}

pub record Fared {T : Type 0} (s t : State T) : Type 0 where
  pub same : settings t.client ≡ settings s.client
  pub fares : Sound (settings s.client) → t.progress ≡ s.progress

abbrev pub FaredIfEnds :
    {T : Type 0} → State T → Option (WebSocketResult (Unit {0}) × State T) → Type 0
FaredIfEnds s none = Unit
FaredIfEnds s (some (r, t)) = Fared s t

module _ {T : Type 0} where
  Fared-Moved : {s t : State T} → Moved s t → Fared s t
  Fared-Moved m = record { same = m.same; fares = m.fares }

  Fared-trans : {s t u : State T} → Fared s t → Fared t u → Fared s u
  Fared-trans p q = record {
    same = q.same ∙ p.same;
    fares = λ sound. q.fares (subst Sound (sym p.same) sound) ∙ p.fares sound;
  }

  FaredIfEnds-trans :
      (s t : State T) (o : Option (WebSocketResult (Unit {0}) × State T))
      → Fared s t
      → FaredIfEnds t o
      → FaredIfEnds s o
  FaredIfEnds-trans s t none p q = tt
  FaredIfEnds-trans s t (some (r, u)) p q = Fared-trans p q

module _ {T : Type 0} (deps : Deps) (react : React T) (calm : Calm react) where
  finish_close-Fared : (s : State T) → Fared s (finish_close deps react s).1
  unfolding finish_close
  finish_close-Fared s = Fared-Moved (with_stream-Keeps s.client.stream _ s refl)

  round-Fared :
      (over : Bool) (s t : State T) (r : WebSocketResult (Unit {0}))
      (rest : Option (WebSocketResult (Unit {0}) × State T))
      → Fared s t
      → FaredIfEnds t rest
      → FaredIfEnds s (
          if over then some (finish_close deps react s) else elim r [
            | ok _ ↦ rest
            | err e ↦ some (finish_close deps react t)
            | panic ↦ some (panic, t)
          ])
  round-Fared true s t r rest p q = finish_close-Fared s
  round-Fared false s t (ok _) rest p q = FaredIfEnds-trans s t rest p q
  round-Fared false s t (err e) rest p q = Fared-trans p (finish_close-Fared t)
  round-Fared false s t panic rest p q = p

  drop_loop-Fared :
      (elapsed : ℕ → ℕ) (fuel n : ℕ) (s : State T)
      → FaredIfEnds s (drop_loop deps react elapsed fuel n s)
  unfolding drop_loop
  drop_loop-Fared elapsed zero n s = tt
  drop_loop-Fared elapsed (suc fuel) n s =
      let t : State T = (event_loop deps react s).1 in
      round-Fared (is_closed s.client.connection_status || leb s.client.timeout (elapsed n)) s t
        (event_loop deps react s).0 (drop_loop deps react elapsed fuel (n + 1) t)
        (Fared-Moved (event_loop-Moved deps react calm s)) (drop_loop-Fared elapsed fuel (n + 1) t)

  pub drop-Fared :
      (elapsed : ℕ → ℕ) (fuel : ℕ) (s : State T) → FaredIfEnds s (drop deps react elapsed fuel s)
  unfolding drop start_close
  drop-Fared elapsed fuel s =
      by_status (is_down s.client.connection_status || not (is_some s.client.stream))
    where
      by_status :
          (down : Bool)
          → FaredIfEnds s (
              if down
              then some (ok tt, s)
              else drop_loop deps react elapsed fuel 0 (start_close deps react s).1)
      by_status true = (record { same = refl; fares = λ sound. refl })
      by_status false =
          FaredIfEnds-trans s (start_close deps react s).1
            (drop_loop deps react elapsed fuel 0 (start_close deps react s).1)
            (record { same = refl; fares = λ sound. refl })
            (drop_loop-Fared elapsed fuel 0 (start_close deps react s).1)

  -- The destructor ends in time, and the callbacks in it return.
  pub drop-returns :
      (elapsed : ℕ → ℕ) (fuel k : ℕ) (s : State T)
      → s.client.timeout ≤ elapsed k
      → k < fuel
      → Sound (settings s.client)
      → s.progress ≡ going
      → (r : WebSocketResult (Unit {0})) × (t : State T) × (drop deps react elapsed fuel s
          ≡ some (r, t))
        × (t.progress ≡ going)
  drop-returns elapsed fuel k s late more sound fine =
      let ((r, t), e) = drop-ends deps react calm elapsed fuel k s late more in
      let fared : Fared s t = subst (FaredIfEnds s) e (drop-Fared elapsed fuel s) in
      (r, t, e, fared.fares sound ∙ fine)
