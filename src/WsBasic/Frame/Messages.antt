-- ===== src/WsBasic/Frame/Messages.antt =====
-- A server that reads texts as RFC 6455, 5.4, tells it to: the frames of a message are a text frame and
-- continuations of it, and the last of them has FIN. What it reads are the bytes of frames that
-- `Frame::serialize` (websocket/src/ws_basic/frame.rs) makes.
use websocket_std.Prelude.{
  ℕ, zero, suc, ◌+◌, ◌≤◌, ◌<◌, ◌≡◌, refl, sym, List, [], ◌∷◌, ◌++◌, append-nil, append_assoc,
  length, length-append, Option, none, some, Bool, true, false, ◌==◌, if◌then◌else◌, All, arith,
}
use websocket_std.WsBasic.Header
use websocket_std.WsBasic.Frame.{Frame, kind, data_kind, serialize}
use websocket_std.WsBasic.Frame.Server.{server_read}

-- The bytes of the frames, one behind the other.
abbrev pub all_bytes : List Frame → List ℕ
all_bytes [] = []
all_bytes (f ∷ fs) = serialize f ++ all_bytes fs

-- The first octet of a frame that is not the last of its message.
abbrev pub opening : Bool → ℕ
opening true = 1
opening false = 0

abbrev pub prepend : List ℕ → Option (List ℕ × List ℕ) → Option (List ℕ × List ℕ)
prepend payload none = none
prepend payload (some (later, rest)) = some (payload ++ later, rest)

-- A message of at most so many frames, and what follows it.
abbrev pub message : ℕ → Bool → List ℕ → Option (List ℕ × List ℕ)
message zero first bytes = none
message (suc fuel) first bytes = elim (server_read bytes) [
  | none ↦ none
  | some r ↦
      let more = message fuel false r.rest in
      if r.first == 128 + opening first
      then some (r.payload, r.rest)
      else if r.first == opening first
      then prepend r.payload more
      else none
]

-- The messages in the bytes, up to the first that is not whole.
abbrev pub messages : ℕ → List ℕ → List (List ℕ)
messages zero bytes = []
messages (suc fuel) bytes = elim (message (length bytes) true bytes) [
  | none ↦ []
  | some (payload, rest) ↦ payload ∷ messages fuel rest
]

abbrev pub server_messages : List ℕ → List (List ℕ)
server_messages bytes = messages (length bytes + 1) bytes

-- The frames are data frames of one message with this payload, whatever follows.
abbrev pub Spell : Bool → List ℕ → List Frame → Type 0
Spell first payload fs =
    All (λ f. kind f ≡ data_kind) fs
    × ((fuel : ℕ) (rest : List ℕ)
        → length fs ≤ fuel
        → message fuel first (all_bytes fs ++ rest) ≡ some (payload, rest))

-- The frames are those of these messages, one behind the other.
abbrev pub SpellAll : List (List ℕ) → List Frame → Type 0
SpellAll [] fs = fs ≡ []
SpellAll (text ∷ texts) fs =
    (here later : List Frame) × (fs ≡ here ++ later) × Spell true text here × SpellAll texts later

pub all_bytes-append : (fs gs : List Frame) → all_bytes (fs ++ gs) ≡ all_bytes fs ++ all_bytes gs
all_bytes-append [] gs = refl
all_bytes-append (f ∷ fs) gs = rw (all_bytes-append fs gs, append_assoc)

length-serialize : (f : Frame) → 1 ≤ length (serialize f)
unfolding serialize Header.serialize
length-serialize f = omega arith

length-all_bytes : (fs : List Frame) → length fs ≤ length (all_bytes fs)
length-all_bytes [] = omega arith
length-all_bytes (f ∷ fs) =
    omega
      (arith, length-all_bytes fs, length-serialize f, length-append (serialize f) (all_bytes fs))

pub SpellAll-snoc :
    (texts : List (List ℕ)) (fs : List Frame) (text : List ℕ) (gs : List Frame)
    → SpellAll texts fs
    → Spell true text gs
    → SpellAll (texts ++ text ∷ []) (fs ++ gs)
SpellAll-snoc [] fs text gs none_yet spell =
    (gs, [], rw none_yet (sym (append-nil gs)), spell, refl)
SpellAll-snoc (first ∷ texts) fs text gs (here, later, split, spell_here, spell_later) spell = (
  here,
  later ++ gs,
  rw split (append_assoc here later gs),
  spell_here,
  SpellAll-snoc texts later text gs spell_later spell,
)

Spell-some : (text : List ℕ) (fs : List Frame) → Spell true text fs → 1 ≤ length fs
Spell-some text [] spell = absurd (cc (spell.1 0 [] (omega arith)))
Spell-some text (f ∷ fs) spell = omega arith

-- The server reads the messages that the frames spell.
messages-SpellAll :
    (texts : List (List ℕ)) (fs : List Frame) (fuel : ℕ)
    → SpellAll texts fs
    → length fs < fuel
    → messages fuel (all_bytes fs) ≡ texts
messages-SpellAll texts fs zero spells enough = absurd (omega arith)
messages-SpellAll [] fs (suc fuel) spells enough = rw spells refl
messages-SpellAll (text ∷ texts) fs (suc fuel) (here, later, split, spell, spells) enough =
    let count : length fs ≡ length here + length later = rw split (length-append here later) in
    let size : length here ≤ length (all_bytes here ++ all_bytes later) =
      omega (arith, length-append (all_bytes here) (all_bytes later), length-all_bytes here) in
    rw (
      split,
      all_bytes-append here later,
      messages,
      spell.1 (length (all_bytes here ++ all_bytes later)) (all_bytes later) size,
      messages-SpellAll texts later fuel spells (omega (arith, count, Spell-some text here spell)),
    )

pub server_messages-SpellAll :
    (texts : List (List ℕ)) (fs : List Frame)
    → SpellAll texts fs
    → server_messages (all_bytes fs) ≡ texts
server_messages-SpellAll texts fs spells =
    messages-SpellAll texts fs (length (all_bytes fs) + 1) spells
      (omega (arith, length-all_bytes fs))
