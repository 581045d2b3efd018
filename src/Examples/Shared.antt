-- ===== src/Examples/Shared.antt =====
-- What the programs of examples use of the standard library: printing, and numbers that are shared by
-- `Rc<RefCell<..>>` or `Arc<Mutex<..>>`. A callback's data is the index of its cell.
use websocket_std.Prelude.{
  ℕ, zero, suc, ◌+◌, ◌%◌, ◌^◌, List, [], ◌∷◌, ◌++◌, Option, none, some, length,
}
use websocket_std.Outcome.{WebSocketResult, ok, err, panic}
use websocket_std.Http.Headers.{Text}
use websocket_std.Sync.State.{State, Progress, going, hung, unwinding}
use websocket_std.Sync.Exec.{Exec}

abbrev pub print : Text → Exec ℕ (Unit {0})
print text s = (ok tt, record s { printed = s.printed ++ text })

abbrev pub println : Text → Exec ℕ (Unit {0})
println text = print (text ++ 10 ∷ [])

-- `count += 1` on a `usize`, as without overflow checks.
abbrev pub add_one : ℕ → List ℕ → List ℕ
add_one cell [] = []
add_one zero (n ∷ cells) = ((n + 1) % 2 ^ 64) ∷ cells
add_one (suc cell) (n ∷ cells) = n ∷ add_one cell cells

abbrev pub count_one : ℕ → Exec ℕ (Unit {0})
count_one cell s = (ok tt, record s { cells = add_one cell s.cells })

-- A new cell with a 0, and its index.
abbrev pub new_cell : State ℕ → ℕ × State ℕ
new_cell s = (length s.cells, record s { cells = s.cells ++ 0 ∷ [] })

-- The first call that did not return decides.
abbrev first_of : Progress → Progress → Progress
first_of going later = later
first_of hung later = hung
first_of unwinding later = unwinding

-- What the callback leaves behind: one that does not return, or panics, does not let the program go on.
abbrev pub left_by : State ℕ → Option (WebSocketResult (Unit {0}) × State ℕ) → State ℕ
left_by s none = record s { progress = first_of s.progress hung }
left_by s (some (ok _, t)) = t
left_by s (some (err e, t)) = t
left_by s (some (panic, t)) = record t { progress = first_of t.progress unwinding }

-- How a call of the client ends for the program, by what became of the callbacks in it; `none` if it
-- does not end.
abbrev pub as_seen : Progress → WebSocketResult (Unit {0}) → Option (WebSocketResult (Unit {0}))
as_seen going r = some r
as_seen hung r = none
as_seen unwinding r = some panic
