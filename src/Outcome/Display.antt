-- ===== src/Outcome/Display.antt =====
-- `Display` for `WebSocketError` and its `From<io::Error>` (websocket/src/result.rs). What is written
-- to is any writer whose `write_str` may fail.
use websocket_std.Prelude.{
  ℕ, ◌≡◌, refl, sym, ap, ◌∙◌, List, [], ◌++◌, Option, none, some, length, ◌==◌, if◌then◌else◌,
}
use websocket_std.Outcome.{
  WebSocketError, unreachable_host, hand_shake, invalid_frame, connection_close, decoding_from_utf8,
  io_error,
}
use websocket_std.Std.Str.{codes}

-- `std::io::Error`, of which nothing is looked at.
pub data IoError : Type 0 where
  io : IoError

abbrev pub from_io_error : IoError → WebSocketError
from_io_error _ = io_error

-- The text behind the prefix.
unfoldable pub description : WebSocketError → List ℕ
description unreachable_host = codes "Unreachable host"
description hand_shake = codes "Error performing initial handshake"
description invalid_frame = codes "Invalid frame received"
description connection_close = codes "The connection was closed"
description decoding_from_utf8 = codes "Error decoding from utf8"
description io_error = codes "IOError"

abbrev pub prefix : List ℕ
prefix = codes "WebSocketError: "

-- `none` is `fmt::Error`.
unfoldable pub fmt : {W : Type 0} → (W → List ℕ → Option W) → WebSocketError → W → Option W
fmt write_str e w = elim (write_str w prefix) [
  | none ↦ none
  | some w1 ↦ write_str w1 (description e)
]

-- `to_string`: a `String` takes all that is written.
abbrev pub append_to : List ℕ → List ℕ → Option (List ℕ)
append_to text more = some (text ++ more)

abbrev got : Option (List ℕ) → List ℕ
got none = []
got (some text) = text

unfoldable pub to_string : WebSocketError → List ℕ
unfolding fmt
to_string e = got (fmt append_to e [])

-- The lengths of the texts are all different.
of_length : ℕ → Option WebSocketError
of_length n =
    if n == 32
    then some unreachable_host
    else if n == 50
    then some hand_shake
    else if n == 38
    then some invalid_frame
    else if n == 41
    then some connection_close
    else if n == 40
    then some decoding_from_utf8
    else if n == 23
    then some io_error
    else none

of_length-to_string : (e : WebSocketError) → of_length (length (to_string e)) ≡ some e
unfolding of_length to_string description
of_length-to_string unreachable_host = refl
of_length-to_string hand_shake = refl
of_length-to_string invalid_frame = refl
of_length-to_string connection_close = refl
of_length-to_string decoding_from_utf8 = refl
of_length-to_string io_error = refl

-- Errors that are written the same are the same error: the text of an error tells which it is.
pub to_string_injective : (e f : WebSocketError) → to_string e ≡ to_string f → e ≡ f
to_string_injective e f h =
    let same : some e ≡ some f =
      sym (of_length-to_string e)
      ∙ ap (λ (text : List ℕ). of_length (length text)) h
      ∙ of_length-to_string f in
    cc
