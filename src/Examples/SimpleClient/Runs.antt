-- ===== src/Examples/SimpleClient/Runs.antt =====
-- The run of examples/simple_client.rs over the event loop of websocket/src/sync/client.rs.
use websocket_std.Prelude.{
  ℕ, zero, suc, ◌+◌, ◌≤◌, ◌<◌, ◌≡◌, refl, ap, subst, sym, ◌∙◌, Option, none, some, Bool, true,
  false, lt→ltb, if◌then◌else◌, arith,
}
use websocket_std.Outcome.{WebSocketResult, ok, err, panic}
use websocket_std.Sync.Deps.{Deps}
use websocket_std.Sync.State.{State, new, going, Progress, init}
use websocket_std.Sync.EventLoop.{event_loop}
use websocket_std.Sync.Moves.{Sound, settings, kept, Settings, Moved, Moved-refl, Moved-trans}
use websocket_std.Sync.Moves.Loop.{event_loop-Moved}
use websocket_std.Sync.Moves.Drops.{drop-returns}
use websocket_std.Examples.Shared.{as_seen, new_cell}
use websocket_std.Examples.SimpleClient.Calls.{callback-Calm}
use websocket_std.Examples.SimpleClient.{
  callback, main_loop, main, leave, ended, print_count, start, ten_seconds,
}

module _ (deps : Deps) where
  -- The loop ends, in a state that it has moved to.
  abbrev Ends : State ℕ → Option (WebSocketResult (Unit {0}) × State ℕ) → Type 0
  Ends s o = (r : WebSocketResult (Unit {0})) × (t : State ℕ) × (o ≡ some (r, t)) × Moved s t

  round-Ends :
      (elapsed : ℕ → ℕ) (fuel n : ℕ) (over : Bool) (s : State ℕ) (r : WebSocketResult (Unit {0}))
      (t : State ℕ)
      → Moved s t
      → (over ≡ false → Ends t (main_loop deps elapsed fuel (n + 1) t))
      → Ends s (
          if over then some (ok tt, s) else elim (as_seen going r) [
            | none ↦ none
            | some (ok _) ↦ main_loop deps elapsed fuel (n + 1) t
            | some (err e) ↦ some (err e, t)
            | some panic ↦ some (panic, t)
          ])
  round-Ends elapsed fuel n true s r t m rest = (ok tt, s, refl, Moved-refl s)
  round-Ends elapsed fuel n false s (ok _) t m rest =
      let (q, u, e, k) = rest refl in (q, u, e, Moved-trans m k)
  round-Ends elapsed fuel n false s (err e) t m rest = (err e, t, refl, m)
  round-Ends elapsed fuel n false s panic t m rest = (panic, t, refl, m)

  -- The client is sound, and no callback has failed to return.
  abbrev Fares : State ℕ → Type 0
  Fares s = Sound (settings s.client) × (s.progress ≡ going)

  Fares-Moved : {s t : State ℕ} → Moved s t → Fares s → Fares t
  Fares-Moved m f = (subst Sound (sym m.same) f.0, m.fares f.0 ∙ f.1)

  turned : (s : State ℕ) → Moved s (event_loop deps (callback deps) s).1
  turned s = event_loop-Moved deps (callback deps) (callback-Calm deps) s

  -- The loop ends when the clock has passed ten seconds, if not before.
  pub main_loop-Ends :
      (elapsed : ℕ → ℕ) (fuel n k : ℕ) (s : State ℕ)
      → ten_seconds < elapsed (n + k)
      → k < fuel
      → Fares s
      → Ends s (main_loop deps elapsed fuel n s)
  unfolding main_loop
  main_loop-Ends elapsed zero n k s late more fares = absurd (omega arith)
  main_loop-Ends elapsed (suc fuel) n zero s late more fares = rw (Fares-Moved (turned s) fares).1 (
      round-Ends elapsed fuel n _ s (event_loop deps (callback deps) s).0
        (event_loop deps (callback deps) s).1 (turned s)
        λ early.
          let now : ten_seconds < elapsed n =
            subst (λ m. ten_seconds < elapsed m) (omega arith) late in
          absurd (cc (early, lt→ltb ten_seconds (elapsed n) now)))
  main_loop-Ends elapsed (suc fuel) n (suc k) s late more fares =
      rw (Fares-Moved (turned s) fares).1 (
        round-Ends elapsed fuel n _ s (event_loop deps (callback deps) s).0
          (event_loop deps (callback deps) s).1 (turned s)
          λ early.
            main_loop-Ends elapsed fuel (n + 1) k (event_loop deps (callback deps) s).1
              (subst (λ m. ten_seconds < elapsed m) (omega arith) late) (omega arith)
              (Fares-Moved (turned s) fares))

  print_count-kept :
      (cell : ℕ) (r : WebSocketResult (Unit {0})) (t : State ℕ)
      → kept (print_count deps cell r t) ≡ kept t
  print_count-kept cell (ok _) t = refl
  print_count-kept cell (err e) t = refl
  print_count-kept cell panic t = refl

  module _ (elapsed drop_elapsed : ℕ → ℕ) (fuel drop_fuel : ℕ) where
    leave-Ends :
        (cell k : ℕ) (s : State ℕ) (o : Option (WebSocketResult (Unit {0}) × State ℕ))
        → s.client.timeout ≤ drop_elapsed k
        → k < drop_fuel
        → Fares s
        → Ends s o
        → (r : WebSocketResult (Unit {0}) × State ℕ) × (leave deps elapsed drop_elapsed fuel
              drop_fuel cell o
            ≡ some r)
    leave-Ends cell k s o late more fares (r, t, is, moved) =
        let p : State ℕ = print_count deps cell r t in
        let same : kept p ≡ kept t = print_count-kept cell r t in
        let timeout : p.client.timeout ≡ s.client.timeout =
          ap (λ (x : Settings ℕ × Progress). x.0.4) same
          ∙ ap (λ (x : Settings ℕ). x.4) moved.same in
        let (sound, fine) = Fares-Moved moved fares in
        let (q, u, e, last) =
          drop-returns deps (callback deps) (callback-Calm deps) drop_elapsed drop_fuel k p
            (rw timeout late) more (subst Sound (sym (ap (λ x. x.0) same)) sound)
            (ap (λ x. x.1) same ∙ fine) in
        ((ended deps r q, u), rw (is, leave, e, last))

    -- The program ends, whatever the server sends, and so do all calls of its callback: within a round of the ten seconds, and a round of
    -- the thirty that the destructor of the client then waits at most. The clock of the loop has
    -- passed ten seconds at its k-th round, and that of the destructor thirty at its j-th (both from
    -- 0), and fuel for one round more is enough. No callback has hung or panicked before the start.
    pub main_ends :
        (k j : ℕ) (s : State ℕ)
        → s.progress ≡ going
        → ten_seconds < elapsed k
        → k < fuel
        → 30 ≤ drop_elapsed j
        → j < drop_fuel
        → (r : WebSocketResult (Unit {0}) × State ℕ) × (main deps elapsed drop_elapsed fuel
              drop_fuel s
            ≡ some r)
    unfolding main new init
    main_ends k j s fine late more drop_late drop_more =
        let (cell, s1) = new_cell s in
        leave-Ends cell j (start deps cell s1) (main_loop deps elapsed fuel 0 (start deps cell s1))
          drop_late drop_more ((omega arith, omega arith, tt), fine)
          (main_loop-Ends elapsed fuel 0 k (start deps cell s1)
            (subst (λ m. ten_seconds < elapsed m) (omega arith) late) more
            ((omega arith, omega arith, tt), fine))
