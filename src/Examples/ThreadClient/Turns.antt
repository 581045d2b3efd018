-- ===== src/Examples/ThreadClient/Turns.antt =====
-- That the program examples/thread_client.rs ends, however its threads take turns.
use websocket_std.Prelude.{
  ℕ, ◌+◌, ◌-◌, ◌/◌, ◌^◌, ◌≤◌, ◌<◌, ◌≡◌, refl, sym, ap, subst, ◌∙◌, List, [], ◌∷◌, Option, some,
  Bool, true, false, leb, leb→le, le→leb, if◌then◌else◌, arith, Bool-cases, inl, inr, length, ◌++◌,
  get_or, none,
}
use websocket_std.Outcome.{WebSocketResult, ok, err, panic}
use websocket_std.Outcome.Display.{to_string}
use websocket_std.Std.Str.{codes}
use websocket_std.Std.Str.Decimal.{decimal}
use websocket_std.Sync.Deps.{Deps}
use websocket_std.Sync.State.{
  State, WsClient, WsEvent, going, on_connect as connect_event, on_text as text_event,
  on_close as close_event, new, init,
}
use websocket_std.Sync.EventLoop.{event_loop}
use websocket_std.Sync.Moves.{Sound, settings, Settings, Moved, Calm}
use websocket_std.Sync.Moves.Loop.{event_loop-Moved}
use websocket_std.Sync.Moves.Drops.{drop-returns}
use websocket_std.Examples.Shared.{left_by, as_seen, print}
use websocket_std.Examples.SimpleClient
use websocket_std.Examples.SimpleClient.Calls.{callback-Calm}
use websocket_std.Examples.ThreadClient.{
  on_message, websocket_handler, callback, Phase, working, leaving, ended, stuck, Clocks, Thread,
  World, join_world, part, worker, drop_client, turn, Turn, first, second, Program, take_turn, run,
  spawn, main,
}

handler_same :
    (deps : Deps) (event : WsEvent) (data_of : Option ℕ) (s : State ℕ)
    → websocket_handler deps event data_of s ≡ SimpleClient.websocket_handler deps event data_of s
unfolding websocket_handler SimpleClient.websocket_handler on_message SimpleClient.on_message
handler_same deps (connect_event msg) data_of s = refl
handler_same deps (text_event msg) data_of s = refl
handler_same deps (close_event reason) data_of s = refl

-- Both callbacks move the client alike.
thread_callback-Calm : (deps : Deps) → Calm (callback deps)
thread_callback-Calm deps pointer event s =
    subst (λ o. Moved s (left_by s o)) (sym (handler_same deps event s.client.cb_data s))
      (callback-Calm deps pointer event s)

-- The turns that a thread needs at most, when its clock has passed ten seconds at the k-th round.
abbrev remaining : ℕ → Phase → ℕ
remaining k (working n) = k - n + 2
remaining k leaving = 1
remaining k ended = 0
remaining k stuck = 0

-- A client with the default timeout, whose callback returns.
abbrev Usual : WsClient ℕ → Type 0
Usual c = (c.timeout ≡ 30) × Sound (settings c)

-- A thread that ends in time.
abbrev OnTime : ℕ → Phase → WsClient ℕ → Type 0
OnTime k (working n) c = (n ≤ k) × Usual c
OnTime k leaving c = Usual c
OnTime k ended c = Unit
OnTime k stuck c = ⊥

ended_at_zero : (k : ℕ) (p : Phase) (c : WsClient ℕ) → OnTime k p c → remaining k p ≤ 0 → p ≡ ended
ended_at_zero k (working n) c on h = absurd (omega arith)
ended_at_zero k leaving c on h = absurd (omega arith)
ended_at_zero k ended c on h = refl
ended_at_zero k stuck c on h = absurd on

-- How often each thread has its turn.
abbrev pub firsts : List Turn → ℕ
firsts [] = 0
firsts (first ∷ turns) = firsts turns + 1
firsts (second ∷ turns) = firsts turns

abbrev pub seconds : List Turn → ℕ
seconds [] = 0
seconds (first ∷ turns) = seconds turns
seconds (second ∷ turns) = seconds turns + 1

-- After some turns, a thread is nearer to its end.
record Nearer (k : ℕ) (before taken : ℕ) (t : Thread) : Type 0 where
  on_time : OnTime k t.phase t.client
  less : remaining k t.phase ≤ before - taken

-- The clocks of a thread pass ten seconds at the k-th round of the loop, and thirty at the j-th of the
-- destructor.
abbrev pub Passes : Clocks → ℕ → ℕ → Type 0
Passes clocks k j = (10 ≤ clocks.elapsed k / 10 ^ 9) × (30 ≤ clocks.drop_elapsed j)

module _ (deps : Deps) (clocks : Clocks) (fuel k j : ℕ) (late : Passes clocks k j)
    (enough : j < fuel) where
  Usual-Moved : {s t : State ℕ} → Moved s t → Usual s.client → Usual t.client
  Usual-Moved m u = (ap (λ (x : Settings ℕ). x.4) m.same ∙ u.0, subst Sound (sym m.same) u.1)

  turned : (s : State ℕ) → Moved s (event_loop deps (callback deps) s).1
  turned s = event_loop-Moved deps (callback deps) (thread_callback-Calm deps) s

  round_Nearer :
      (n : ℕ) (s : State ℕ) (over : Bool) (r : WebSocketResult (Unit {0})) (after : State ℕ)
      → n ≤ k
      → Usual s.client
      → Usual after.client
      → (over ≡ false → n < k)
      → Nearer k
          (k - n + 2)
          1
          (if over then part leaving s else elim (as_seen going r) [
            | none ↦ part stuck after
            | some (ok _) ↦ part (working (n + 1)) after
            | some (err e) ↦ part leaving (print (to_string e) after).1
            | some panic ↦ part leaving after
          ]).0
  round_Nearer n s true r after le u v more = record { on_time = u; less = omega arith }
  round_Nearer n s false (ok _) after le u v more = record {
    on_time = (omega (arith, more refl), v);
    less = omega (arith, more refl);
  }
  round_Nearer n s false (err e) after le u v more = record { on_time = v; less = omega arith }
  round_Nearer n s false panic after le u v more = record { on_time = v; less = omega arith }

  worker-Nearer :
      (n : ℕ) (s : State ℕ)
      → n ≤ k
      → Usual s.client
      → s.progress ≡ going
      → Nearer k (k - n + 2) 1 (worker deps clocks fuel n s).0
  unfolding worker
  worker-Nearer n s le u fine = rw ((turned s).fares u.1 ∙ fine) (
      round_Nearer n s (leb 10 (clocks.elapsed n / 10 ^ 9)) (event_loop deps (callback deps) s).0
        (event_loop deps (callback deps) s).1 le u (Usual-Moved (turned s) u)
        λ early. not_yet n le early)
    where
      not_yet : (n : ℕ) → n ≤ k → leb 10 (clocks.elapsed n / 10 ^ 9) ≡ false → n < k
      not_yet n le early = elim (Bool-cases (leb k n)) [
        | inl last ↦
            let same : n ≡ k = omega (arith, leb→le k n last) in
            absurd (cc (le→leb 10 (clocks.elapsed k / 10 ^ 9) late.0, rw same at early))
        | inr before ↦ ground arith
      ]

  drop_client-Nearer :
      (s : State ℕ)
      → Usual s.client
      → s.progress ≡ going
      → Nearer k 1 1 (drop_client deps clocks fuel s).0
  unfolding drop_client
  drop_client-Nearer s u fine =
      let (r, t, e, last) =
        drop-returns deps (callback deps) (thread_callback-Calm deps) clocks.drop_elapsed fuel j s
          (rw u.0 late.1) enough u.1 fine in
      rw (drop_client, e, last) (record { on_time = tt; less = omega arith })

  turn-Nearer :
      (p : Phase) (t : Thread) (w : World)
      → t.phase ≡ p
      → OnTime k p t.client
      → Nearer k (remaining k p) 1 (turn deps clocks fuel t w).0
  unfolding turn
  turn-Nearer (working n) t w is h = rw is (worker-Nearer n (join_world t.client w) h.0 h.1 refl)
  turn-Nearer leaving t w is h = rw is (drop_client-Nearer (join_world t.client w) h refl)
  turn-Nearer ended t w is h = rw is (record { on_time = tt; less = omega arith })
  turn-Nearer stuck t w is h = absurd h

module _ (deps : Deps) (one two : Clocks) (fuel k j m i : ℕ) (late : Passes one k j)
    (late_too : Passes two m i) (enough : j < fuel) (enough_too : i < fuel) where
  run-Nearer :
      (turns : List Turn) (p : Program)
      → OnTime k p.one.phase p.one.client
      → OnTime m p.two.phase p.two.client
      → let q : Program = run deps one two fuel turns p in
        Nearer k (remaining k p.one.phase) (firsts turns) q.one
        × Nearer m (remaining m p.two.phase) (seconds turns) q.two
  run-Nearer [] p a b =
      (record { on_time = a; less = omega arith }, record { on_time = b; less = omega arith })
  run-Nearer (first ∷ turns) p a b =
      let near = turn-Nearer deps one fuel k j late enough p.one.phase p.one p.world refl a in
      let (x, y) = run-Nearer turns (take_turn deps one two fuel first p) near.on_time b in
      (record { on_time = x.on_time; less = omega (arith, near.less, x.less) }, y)
  run-Nearer (second ∷ turns) p a b =
      let near =
        turn-Nearer deps two fuel m i late_too enough_too p.two.phase p.two p.world refl b in
      let (x, y) = run-Nearer turns (take_turn deps one two fuel second p) a near.on_time in
      (x, record { on_time = y.on_time; less = omega (arith, near.less, y.less) })

  -- The program ends, however the threads take turns and whatever the servers send, and prints as the
  -- last thing the number in the cell that both threads count in. Each thread has its own clocks and
  -- its turn often enough: the clock of its loop has passed ten seconds at some round, that of its
  -- destructor thirty at some round (both from 0), and it has two turns more than the rounds before ten
  -- seconds have passed.
  pub turns_end :
      (turns : List Turn) (w : World)
      → k + 2 ≤ firsts turns
      → m + 2 ≤ seconds turns
      → let last : World = (run deps one two fuel turns (spawn deps one two fuel w)).world in
        main deps one two fuel turns w
        ≡ some (record last {
          printed =
              last.printed
              ++ (codes "Total messages received: "
                  ++ (decimal (get_or last.cells (length w.cells) 0) ++ codes "\n"));
        })
  unfolding main spawn new init
  turns_end turns w often often_too =
      let p : Program = spawn deps one two fuel w in
      let usual : Usual p.one.client = (refl, (omega arith, omega arith, tt)) in
      let (x, y) = run-Nearer turns p (omega arith, usual) (omega arith, usual) in
      let q : Program = run deps one two fuel turns p in
      let one_ended : q.one.phase ≡ ended =
        ended_at_zero k q.one.phase q.one.client x.on_time (omega (arith, x.less)) in
      let two_ended : q.two.phase ≡ ended =
        ended_at_zero m q.two.phase q.two.client y.on_time (omega (arith, y.less)) in
      rw (one_ended, two_ended)
