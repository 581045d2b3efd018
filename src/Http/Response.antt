-- ===== src/Http/Response.antt =====
-- websocket/src/http/response.rs. `to_lowercase` of the standard library, which goes by the tables
-- of Unicode, is an argument.
pub mod Written
pub mod Heads
pub mod RoundTrip
pub mod Panics
pub mod Tests
use websocket_std.Prelude.{ℕ, ◌+◌, ◌*◌, List, [], ◌∷◌, ◌++◌, Option, none, some, length}
use websocket_std.Outcome.{Outcome, ok, err, ◌>>=◌, slice, index}
use websocket_std.Std.Utf8.{from_utf8_lossy_kept}
use websocket_std.Std.Str.{codes, find, split, trim, parse_u16}
use websocket_std.Http.Headers.{Text, Headers, insert, lookup, end_line}

-- `ParseError` of websocket/src/core/traits.rs.
pub data ParseError : Type 0 where
  parse_error : ParseError

pub record Response : Type 0 where
  pub version : Text
  pub status_code : ℕ  -- u16
  pub status_text : Text
  pub headers : Option Headers
  pub body : Option Text

abbrev pub new : Text → ℕ → Text → Option Headers → Option Text → Response
new version status_code status_text headers body = record {
  version = version;
  status_code = status_code;
  status_text = status_text;
  headers = headers;
  body = body;
}

abbrev pub get_status_code : Response → ℕ
get_status_code r = r.status_code

unfoldable pub header : (Text → Text) → Response → Text → Option Text
unfolding lookup
header to_lowercase r key = elim r.headers [
  | none ↦ none
  | some headers ↦ lookup (to_lowercase key) headers
]

abbrev or_parse_error : Option ℕ → Outcome ParseError ℕ
or_parse_error none = err parse_error
or_parse_error (some i) = ok i

-- The loop over the header lines.
unfoldable pub parse_headers : (Text → Text) → List Text → Headers → Outcome ParseError Headers
unfolding insert find trim
parse_headers to_lowercase [] headers = ok headers
parse_headers to_lowercase (line ∷ lines) headers = do
  i ← or_parse_error (find (codes ":") line)
  key ← slice 0 i line
  value ← slice i (length line) line
  value' ← slice 1 (length value) value
  parse_headers to_lowercase lines (insert (to_lowercase (trim key)) (trim value') headers)

abbrev pub non_empty : {A : Type 0} → List A → Option (List A)
non_empty [] = none
non_empty (x ∷ xs) = some (x ∷ xs)

-- The lines of the head, and the body.
unfoldable pub parse_lines : (Text → Text) → List Text → Text → Outcome ParseError Response
unfolding split trim parse_u16 parse_headers
parse_lines to_lowercase lines body = do
  first ← index lines 0
  let response_info = split (codes " ") first
  version ← index response_info 0
  status ← index response_info 1
  status_code ← or_parse_error (parse_u16 (trim status))
  status_text ← index response_info 2
  rest ← slice 1 (length lines) lines
  headers ← parse_headers to_lowercase rest []
  ok (record {
    version = trim version;
    status_code = status_code;
    status_text = trim status_text;
    headers = non_empty headers;
    body = non_empty body;
  })

unfoldable pub parse : (Text → Text) → List ℕ → Outcome ParseError Response
unfolding from_utf8_lossy_kept find split parse_lines
parse to_lowercase raw = do
  let bytes = from_utf8_lossy_kept raw
  end_header ← or_parse_error (find (end_line ++ end_line) bytes)
  header ← slice 0 end_header bytes
  body ← slice (end_header + length end_line * 2) (length bytes) bytes
  parse_lines to_lowercase (split end_line header) body
