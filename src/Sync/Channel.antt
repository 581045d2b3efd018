-- ===== src/Sync/Channel.antt =====
-- The client (websocket/src/sync/client.rs) as a channel of texts: calls of `send` and of `event_loop`
-- in any order.
pub mod Spells
pub mod Refines
use websocket_std.Prelude.{ℕ, ◌+◌, List, [], ◌∷◌, Option, none, some, length}
use websocket_std.Outcome.{WebSocketResult, ok, err, panic}
use websocket_std.Http.Headers.{Text}
use websocket_std.Sync.Deps.{Deps}
use websocket_std.Sync.State.{State, React}
use websocket_std.Sync.Send.{send}
use websocket_std.Sync.EventLoop.{event_loop}

-- What the program calls: `send`, or `event_loop`.
pub data Op : Type 0 where
  say : Text → Op
  turn : Op

-- The abstract channel: what has been said, less the empty texts, which make no frame.
abbrev pub hear : Text → List Text → List Text
hear [] texts = texts
hear (b ∷ bs) texts = (b ∷ bs) ∷ texts

abbrev pub said : List Op → List Text
said [] = []
said (say text ∷ ops) = hear text (said ops)
said (turn ∷ ops) = said ops

-- The state after a call that returned `Ok`.
abbrev pub returned :
    {T : Type 0} → Option (WebSocketResult (Unit {0}) × State T) → Option (State T)
returned none = none
returned (some (ok _, s)) = some s
returned (some (err e, s)) = none
returned (some (panic, s)) = none

module _ {T : Type 0} (deps : Deps) (react : React T) where
  abbrev pub call : Op → State T → Option (State T)
  call (say text) s = returned (send deps (length text + 1) text s)
  call turn s = returned (some (event_loop deps react s))

  -- The calls one after the other, if all of them end with `Ok`.
  abbrev pub run : List Op → State T → Option (State T)
  run [] s = some s
  run (op ∷ ops) s = elim (call op s) [ none ↦ none | some next ↦ run ops next ]
