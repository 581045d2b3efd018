-- ===== src/Ffi/Common/Strings.antt =====
-- Which texts `from_rust_event` (websocket/src/ffi/common.rs) can hand over as C strings.
use websocket_std.Prelude.{
  ℕ, ◌≡◌, refl, [], ◌∷◌, All, some, none, false, ◌==◌, Bool-cases, inl, inr,
}
use websocket_std.Outcome.{ok}
use websocket_std.Std.Str.{trim}
use websocket_std.Std.Str.Trim.{All-trim}
use websocket_std.Http.Headers.{Text}
use websocket_std.Sync.State.{WsEvent, on_connect, on_text, on_close}
use websocket_std.Ffi.Common.{
  CEvent, c_text, c_connect, c_close, reason_of, has_nul, c_string, drop_nuls, from_rust_event,
}

has_nul-drop_nuls : (text : Text) → has_nul (drop_nuls text) ≡ false
unfolding drop_nuls has_nul
has_nul-drop_nuls [] = refl
has_nul-drop_nuls (b ∷ bs) = elim (Bool-cases (b == 0)) [
  | inl nul ↦ rw nul (has_nul-drop_nuls bs)
  | inr other ↦ rw (other, other) (has_nul-drop_nuls bs)
]

abbrev NoNul : ℕ → Type 0
NoNul b = (b == 0) ≡ false

All-NoNul : (text : Text) → has_nul text ≡ false → All NoNul text
unfolding has_nul
All-NoNul [] h = tt
All-NoNul (b ∷ bs) h = elim (Bool-cases (b == 0)) [
  | inl nul ↦ cc (rw nul at h)
  | inr other ↦ (other, All-NoNul bs (rw other at h))
]

has_nul-none : (text : Text) → All NoNul text → has_nul text ≡ false
unfolding has_nul
has_nul-none [] h = refl
has_nul-none (b ∷ bs) h = rw h.0 (has_nul-none bs h.1)

trimmed-NoNul : (msg : Text) → All NoNul (trim (drop_nuls msg))
trimmed-NoNul msg =
    All-trim NoNul (drop_nuls msg) (All-NoNul (drop_nuls msg) (has_nul-drop_nuls msg))

-- The body of the response to the handshake is handed over, whatever it is, without its NULs and the
-- white space around it; there is no panic.
pub from_rust_event-connect :
    (msg : Text)
    → (from_rust_event (on_connect (some msg))).1 ≡ ok (c_connect (some (trim (drop_nuls msg))))
unfolding from_rust_event c_string
from_rust_event-connect msg = rw (has_nul-none (trim (drop_nuls msg)) (trimmed-NoNul msg))

-- What a C program gets of an event: its strings end at their NUL, since none is before it.
abbrev pub Handed : WsEvent → CEvent → Type 0
Handed (on_connect none) c = c ≡ c_connect none
Handed (on_connect (some msg)) c =
    (c ≡ c_connect (some (trim (drop_nuls msg)))) × All NoNul (trim (drop_nuls msg))
Handed (on_text msg) c = (c ≡ c_text msg) × All NoNul msg
Handed (on_close reason) c = c ≡ c_close (reason_of reason)

-- A text with a NUL in it.
abbrev pub IsCut : WsEvent → Type 0
IsCut (on_text msg) = ¬ All NoNul msg
IsCut _ = ⊥
