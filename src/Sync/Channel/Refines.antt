-- ===== src/Sync/Channel/Refines.antt =====
-- Calls of `WSClient::send` and `WSClient::event_loop` (websocket/src/sync/client.rs) on an open
-- connection, and what the server reads of it.
use websocket_std.Prelude.{
  ℕ, suc, ◌<◌, ◌^◌, ◌≡◌, refl, sym, ap, subst, ◌∙◌, List, [], ◌∷◌, ◌++◌, append_assoc, append-nil,
  length, some, true, All, All-append, map,
}
use mathlib.Core.List.{map-append}
use websocket_std.Core.Binary.{IsBytes, IsVec}
use websocket_std.Http.Headers.{Text}
use websocket_std.WsBasic.Frame
use websocket_std.WsBasic.Frame.{Frame, kind, data_kind}
use websocket_std.WsBasic.Frame.Messages.{
  all_bytes, all_bytes-append, SpellAll, SpellAll-snoc, server_messages, server_messages-SpellAll,
}
use websocket_std.Sync.Deps.{Deps}
use websocket_std.Sync.Tcp.{TcpStream}
use websocket_std.Sync.State.{State, React, Event, websocket_data}
use websocket_std.Sync.Send.Cuts.{Cuts}
use websocket_std.Sync.Send.Fragments.{Fragments, send-Fragments}
use websocket_std.Sync.EventLoop.Drained.{sending, turns, turn_lem, idle_turn_lem, turns-sending}
use websocket_std.Sync.Channel.{Op, say, turn, said, hear, call, run}
use websocket_std.Sync.Channel.Spells.{Fragments-Spell, Fragments-nil}

-- A text of bytes that a `String` can hold, cut between characters.
abbrev pub Sendable : ℕ → Text → Type 0
Sendable size text = IsBytes text × IsVec text × Cuts size text

abbrev pub SendableOp : ℕ → Op → Type 0
SendableOp size (say text) = Sendable size text
SendableOp size turn = Unit {0}

length-map : (fs : List Frame) → length (map websocket_data fs) ≡ length fs
length-map [] = refl
length-map (f ∷ fs) = ap suc (length-map fs)

-- What is queued for a text is heard behind what was heard before.
heard :
    (size : ℕ) (text : Text) (texts : List Text) (events : List Event) (fs : List Frame)
    → IsBytes text
    → IsVec text
    → Fragments size true text events
    → SpellAll texts fs
    → (gs : List Frame) × (events ≡ map websocket_data gs)
      × All (λ f. kind f ≡ data_kind) gs
      × SpellAll (texts ++ hear text []) (fs ++ gs)
heard size [] texts events fs bytes vec shape spells =
    ([], Fragments-nil size true events shape, tt, rw (append-nil texts, append-nil fs) spells)
heard size (b ∷ bs) texts events fs bytes vec shape spells =
    let (gs, are, spell) = Fragments-Spell size true (b ∷ bs) events bytes vec (λ p. cc) shape in
    (gs, are, spell.0, SpellAll-snoc texts fs (b ∷ bs) gs spells spell)

module _ {T : Type 0} (deps : Deps) (react : React T) (stream : TcpStream) (before : List ℕ)
    (s : State T) (pos : 0 < s.client.message_size) (word : s.client.message_size < 2 ^ 64) where
  -- The frames on the socket and the frames queued behind them spell the texts.
  abbrev pub Carries : List Text → State T → Type 0
  Carries texts now =
      (n : ℕ) × (gone queued : List Frame) × (now
        ≡ sending deps react queued (before ++ all_bytes gone) stream (record s { draws = n }))
      × All (λ f. kind f ≡ data_kind) queued
      × SpellAll texts (gone ++ queued)

  wire_snoc :
      (gone : List Frame) (f : Frame)
      → (before ++ all_bytes gone) ++ Frame.serialize f ≡ before ++ all_bytes (gone ++ f ∷ [])
  wire_snoc gone f =
      rw (all_bytes-append gone (f ∷ []), append-nil (Frame.serialize f))
        (append_assoc before (all_bytes gone) (Frame.serialize f))

  turn-Carries :
      (texts : List Text) (now : State T)
      → Carries texts now
      → (next : State T) × (call deps react turn now ≡ some next) × Carries texts next
  turn-Carries texts now (n, gone, [], is, kinds, spells) =
      let s1 : State T = record s { draws = n } in
      (
        now,
        rw (is, idle_turn_lem deps react (before ++ all_bytes gone) stream s1),
        (n, gone, [], is, kinds, spells),
      )
  turn-Carries texts now (n, gone, f ∷ fs, is, kinds, spells) =
      let s1 : State T = record s { draws = n } in
      (
        sending deps react fs ((before ++ all_bytes gone) ++ Frame.serialize f) stream s1,
        rw (is, turn_lem deps react f fs (before ++ all_bytes gone) stream s1 kinds.0),
        (
          n,
          gone ++ f ∷ [],
          fs,
          ap (λ (bytes : List ℕ). sending deps react fs bytes stream s1) (wire_snoc gone f),
          kinds.1,
          subst (SpellAll texts) (sym (append_assoc gone (f ∷ []) fs)) spells,
        ),
      )

  say-Carries :
      (text : Text) (texts : List Text) (now : State T)
      → Sendable s.client.message_size text
      → Carries texts now
      → (next : State T) × (call deps react (say text) now ≡ some next)
        × Carries (texts ++ hear text []) next
  say-Carries text texts now sendable (n, gone, fs, is, kinds, spells) =
      let s1 : State T = record s { draws = n } in
      let bytes : List ℕ = before ++ all_bytes gone in
      let (m, events, sends, shape) =
        send-Fragments deps text (sending deps react fs bytes stream s1) sendable.1 pos word
          sendable.2 refl in
      let (gs, are, all, spelt) =
        heard s.client.message_size text texts events (gone ++ fs) sendable.0 sendable.1 shape
          spells in
      (
        sending deps react (fs ++ gs) bytes stream (record s { draws = m }),
        rw (is, sends, are, map-append websocket_data fs gs),
        (
          m,
          gone,
          fs ++ gs,
          refl,
          All-append (λ f. kind f ≡ data_kind) fs gs kinds all,
          subst (SpellAll (texts ++ hear text [])) (append_assoc gone fs gs) spelt,
        ),
      )

  hear-append :
      (text : Text) (texts later : List Text)
      → (texts ++ hear text []) ++ later ≡ texts ++ hear text later
  hear-append [] texts later = ap (λ (ts : List Text). ts ++ later) (append-nil texts)
  hear-append (b ∷ bs) texts later = append_assoc texts ((b ∷ bs) ∷ []) later

  run-Carries :
      (ops : List Op) (texts : List Text) (now : State T)
      → All (SendableOp s.client.message_size) ops
      → Carries texts now
      → (next : State T) × (run deps react ops now ≡ some next) × Carries (texts ++ said ops) next
  run-Carries [] texts now sendable carries =
      (now, refl, subst (λ (ts : List Text). Carries ts now) (sym (append-nil texts)) carries)
  run-Carries (say text ∷ ops) texts now sendable carries =
      let (next, returns, carries1) = say-Carries text texts now sendable.0 carries in
      let (end, runs, carries2) =
        run-Carries ops (texts ++ hear text []) next sendable.1 carries1 in
      (
        end,
        rw (run, returns) runs,
        subst (λ (ts : List Text). Carries ts end) (hear-append text texts (said ops)) carries2,
      )
  run-Carries (turn ∷ ops) texts now sendable carries =
      let (next, returns, carries1) = turn-Carries texts now carries in
      let (end, runs, carries2) = run-Carries ops texts next sendable.1 carries1 in
      (end, rw (run, returns) runs, carries2)

  -- An open connection with nothing queued.
  abbrev pub fresh : State T
  fresh = sending deps react [] before stream s

  fresh-Carries : Carries [] fresh
  fresh-Carries =
      let e : before ++ [] ≡ before = append-nil before in (s.draws, [], [], rw e refl, tt, refl)

-- The client implements a channel of texts. After any calls of `send` and `event_loop`, in any order,
-- on an open connection over a socket that takes all it is given and has nothing to read, all calls
-- have returned `Ok`, and a server that reads after RFC 6455 what has gone out and what is still
-- queued finds the texts that were sent, whole and in their order, but for the empty ones. The texts
-- are bytes that a `String` can hold, cut between characters, and the message size is positive.
pub run-Channel :
    {T : Type 0} (deps : Deps) (react : React T) (stream : TcpStream) (before : List ℕ)
    (s : State T) (ops : List Op)
    → 0 < s.client.message_size
    → s.client.message_size < 2 ^ 64
    → All (SendableOp s.client.message_size) ops
    → (next : State T) × (n : ℕ) × (gone queued : List Frame) × (run deps react ops
          (sending deps react [] before stream s)
        ≡ some next)
      × (next
          ≡ sending deps react queued (before ++ all_bytes gone) stream (record s { draws = n }))
      × (server_messages (all_bytes (gone ++ queued)) ≡ said ops)
run-Channel deps react stream before s ops pos word sendable =
    let (next, runs, (n, gone, queued, is, kinds, spells)) =
      run-Carries deps react stream before s pos word ops [] (sending deps react [] before stream s)
        sendable (fresh-Carries deps react stream before s pos word) in
    (next, n, gone, queued, runs, is, server_messages-SpellAll (said ops) (gone ++ queued) spells)

-- After such calls, as many turns of `event_loop` as frames are still queued empty the queue, and a
-- server that reads after RFC 6455 what has gone out then finds every text that was sent, whole and
-- in order, but for the empty ones.
pub run-delivers :
    {T : Type 0} (deps : Deps) (react : React T) (stream : TcpStream) (before : List ℕ)
    (s : State T) (ops : List Op)
    → 0 < s.client.message_size
    → s.client.message_size < 2 ^ 64
    → All (SendableOp s.client.message_size) ops
    → (next : State T) × (n k : ℕ) × (wire : List ℕ) × (run deps react ops
          (sending deps react [] before stream s)
        ≡ some next)
      × (k ≡ length next.client.output_events)
      × (turns deps react k next
          ≡ sending deps react [] (before ++ wire) stream (record s { draws = n }))
      × (server_messages wire ≡ said ops)
run-delivers deps react stream before s ops pos word sendable =
    let (next, runs, (n, gone, queued, is, kinds, spells)) =
      run-Carries deps react stream before s pos word ops [] (sending deps react [] before stream s)
        sendable (fresh-Carries deps react stream before s pos word) in
    (
      next,
      n,
      length queued,
      all_bytes (gone ++ queued),
      runs,
      rw is (sym (length-map queued)),
      ap (turns deps react (length queued)) is
          ∙ turns-sending deps react queued (before ++ all_bytes gone) stream
              (record s { draws = n }) kinds
          ∙ ap (λ (sent : List ℕ). sending deps react [] sent stream (record s { draws = n }))
              (append_assoc before (all_bytes gone) (all_bytes queued)
                ∙ ap (◌++◌ before) (sym (all_bytes-append gone queued))),
      server_messages-SpellAll (said ops) (gone ++ queued) spells,
    )
