-- ===== src/Http/Response/Written.antt =====
-- An HTTP response as a server writes it (RFC 7230, 3), for websocket/src/http/response.rs to read.
use websocket_std.Prelude.{ℕ, ◌≤◌, ◌<◌, ◌≡◌, List, ◌∷◌, ◌++◌, map, All}
use websocket_std.Std.Str.{trim}
use websocket_std.Std.Str.Decimal.{decimal}
use websocket_std.Std.Str.Split.{joined, crlf, space, end_head, Without}
use websocket_std.Std.Str.Trim.{AllVisible}
use websocket_std.Http.Headers.{Text}

-- The reason phrase in its words, the first apart.
pub record Written : Type 0 where
  pub version : Text
  pub status : ℕ
  pub word : Text
  pub words : List Text
  pub fields : List (Text × Text)
  pub body : List ℕ

abbrev pub status_line : Written → Text
status_line w = joined space w.version (decimal w.status ∷ w.word ∷ w.words)

abbrev pub field_line : Text × Text → Text
field_line field = field.0 ++ 58 ∷ 32 ∷ field.1

-- A first line, the fields, an empty line and the body.
abbrev pub write_lines : Text → List (Text × Text) → List ℕ → List ℕ
write_lines line fields body = joined crlf line (map field_line fields) ++ (end_head ++ body)

abbrev pub write : Written → List ℕ
write w = write_lines (status_line w) w.fields w.body

-- A character of ASCII that is none of control.
abbrev pub IsPrintable : ℕ → Type 0
IsPrintable b = (32 ≤ b) × (b < 128)

-- A name without a colon, and a value without white space at its ends.
abbrev pub IsField : Text × Text → Type 0
IsField field =
    AllVisible field.0 × Without 58 field.0 × All IsPrintable field.1 × (trim field.1 ≡ field.1)

pub record IsWritten (w : Written) : Type 0 where
  pub version : AllVisible w.version
  pub status : w.status ≤ 65535
  pub word : AllVisible w.word
  pub words : All AllVisible w.words
  pub fields : All IsField w.fields
