-- ===== src/Http/Response/Panics.antt =====
-- A first line that makes `Response::parse` (websocket/src/http/response.rs) panic.
use websocket_std.Prelude.{ℕ, ◌≤◌, ◌≡◌, ◌∙◌, List, [], ◌∷◌, All, arith}
use websocket_std.Outcome.{panic}
use websocket_std.Std.Str.Decimal.{decimal, decimal-AllVisible, parse_u16-decimal}
use websocket_std.Std.Str.Split.{joined, space, Without, split-space}
use websocket_std.Std.Str.Trim.{AllVisible, trim-AllVisible}
use websocket_std.Http.Headers.{Text}
use websocket_std.Http.Response.{parse, parse_lines, parse_lines}
use websocket_std.Http.Response.Written.{IsPrintable, IsField, write_lines}
use websocket_std.Http.Response.Heads.{
  All-weaken, All-joined, printable, visible-32, parse-write_lines,
}

-- The first line of a response has fewer than three words: only a version, or a version and a status.
-- The version is of visible characters, the status has 16 bits, and the fields are well formed.
-- Then `parse` panics, on an index out of range.
pub parse_short_line :
    (lower : Text → Text) (version : Text) (status : ℕ) (fields : List (Text × Text))
    (body : List ℕ)
    → AllVisible version
    → status ≤ 65535
    → All IsField fields
    → (parse lower (write_lines (joined space version []) fields body) ≡ panic)
      × (parse lower (write_lines (joined space version (decimal status ∷ [])) fields body) ≡ panic)
unfolding parse_lines
parse_short_line lower version status fields body visible fits good =
    let one : All IsPrintable (joined space version []) =
      All-joined IsPrintable space ((omega arith, omega arith), tt) version []
        (printable version visible) tt in
    let two : All IsPrintable (joined space version (decimal status ∷ [])) =
      All-joined IsPrintable space ((omega arith, omega arith), tt) version (decimal status ∷ [])
        (printable version visible) (printable (decimal status) (decimal-AllVisible status), tt) in
    let no_space : Without 32 version = All-weaken version visible-32 visible in
    (
      parse-write_lines (joined space version []) fields body one good lower
          ∙ rw (split-space version [] no_space tt),
      parse-write_lines (joined space version (decimal status ∷ [])) fields body two good lower
          ∙ rw (
            split-space version (decimal status ∷ []) no_space
                (All-weaken (decimal status) visible-32 (decimal-AllVisible status), tt),
            trim-AllVisible (decimal status) (decimal-AllVisible status),
            parse_u16-decimal status fits,
          ),
    )
