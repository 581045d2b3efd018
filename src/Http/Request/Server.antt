-- ===== src/Http/Request/Server.antt =====
-- The request of websocket/src/http/request.rs, read the way RFC 7230, 3, tells a server to;
-- that there is a Host field, which the client does not send, is not asked for.
use mathlib.Core.List.{Perm}
use websocket_std.Prelude.{
  ℕ, ◌+◌, ◌≡◌, refl, sym, ap, ◌∙◌, List, [], ◌∷◌, ◌++◌, map, take, drop, length, drop-add,
  append_assoc, Option, none, some, All, arith, take_exact, drop_exact,
}
use websocket_std.Std.Str.{find, split, trim}
use websocket_std.Std.Str.Split.{
  joined, behind, crlf, space, end_head, Without, find-byte, find-end_head, split-crlf, split-space,
}
use websocket_std.Std.Str.Trim.{AllVisible, trim-space}
use websocket_std.Http.Headers.{Text, Headers, lookup, end_line}
use websocket_std.Http.Headers.Order.{Distinct, lookup-Perm}
use websocket_std.Http.Request.{Request, Method, get, method_to_string, header_lines, serialize}
use websocket_std.Http.Response.Written.{IsField, IsPrintable, field_line}
use websocket_std.Http.Response.Heads.{
  All-weaken, All-weaken_each, All-joined, printable, printable-13, visible-32, fields-Line,
  fields-IsPrintable,
}

-- A field is a name, a colon and a value, with white space around that.
abbrev read_field : Text → Option (Text × Text)
read_field line = elim (find (58 ∷ []) line) [
  | none ↦ none
  | some i ↦ some (take i line, trim (drop (i + 1) line))
]

abbrev both : Option (Text × Text) → Option (List (Text × Text)) → Option (List (Text × Text))
both (some field) (some fields) = some (field ∷ fields)
both _ _ = none

abbrev read_fields : List Text → Option (List (Text × Text))
read_fields [] = some []
read_fields (line ∷ lines) = both (read_field line) (read_fields lines)

-- What a server reads, and what comes behind it.
pub record Asked : Type 0 where
  pub method : Text
  pub path : Text
  pub version : Text
  pub fields : List (Text × Text)
  pub rest : List ℕ

abbrev with_fields : Text → Text → Text → List ℕ → Option (List (Text × Text)) → Option Asked
with_fields method path version rest none = none
with_fields method path version rest (some fields) =
    some (record { method = method; path = path; version = version; fields = fields; rest = rest })

abbrev read_first : List Text → List ℕ → Option (List (Text × Text)) → Option Asked
read_first (method ∷ path ∷ version ∷ []) rest fields = with_fields method path version rest fields
read_first _ rest fields = none

abbrev read_lines : List Text → List ℕ → Option Asked
read_lines [] rest = none
read_lines (first ∷ lines) rest = read_first (split space first) rest (read_fields lines)

abbrev pub server_request : List ℕ → Option Asked
server_request bytes = elim (find end_head bytes) [
  | none ↦ none
  | some n ↦ read_lines (split crlf (take n bytes)) (drop (n + 4) bytes)
]

-- The lines that the client writes.
request_line : Request → Text
request_line r = joined space (method_to_string r.method) (r.path ∷ r.version ∷ [])

header_lines-behind :
    (fields : List (Text × Text)) (rest : Text)
    → end_line ++ (header_lines fields ++ rest)
      ≡ behind crlf (map field_line fields) ++ (end_line ++ rest)
unfolding header_lines
header_lines-behind [] rest = refl
header_lines-behind ((key, value) ∷ fields) rest =
    simp (append_assoc, header_lines-behind fields rest)

written_as :
    (order : Headers → List (Text × Text)) (r : Request) (rest : List ℕ)
    → serialize order r ++ rest
      ≡ joined crlf (request_line r) (map field_line (order r.headers)) ++ (end_head ++ rest)
unfolding serialize request_line
written_as order r rest =
    simp (append_assoc, header_lines-behind (order r.headers) (end_line ++ rest))

read_field-field_line :
    (key value : Text)
    → Without 58 key
    → trim value ≡ value
    → read_field (key ++ 58 ∷ 32 ∷ value) ≡ some (key, value)
read_field-field_line key value no_colon trimmed = rw (
  read_field,
  find-byte 58 key (32 ∷ value) no_colon,
  take_exact (length key) key (58 ∷ 32 ∷ value) refl,
  ← drop-add (length key) 1 (key ++ 58 ∷ 32 ∷ value),
  drop_exact (length key) key (58 ∷ 32 ∷ value) refl,
  trim-space value,
  trimmed,
)

read_fields-field_line :
    (fields : List (Text × Text))
    → All IsField fields
    → read_fields (map field_line fields) ≡ some fields
read_fields-field_line [] h = refl
read_fields-field_line ((key, value) ∷ fields) (field, h) =
    rw (read_field-field_line key value field.1 field.3, read_fields-field_line fields h)

method-AllVisible : (m : Method) → AllVisible (method_to_string m)
method-AllVisible get =
    ((omega arith, omega arith), ((omega arith, omega arith), ((omega arith, omega arith), tt)))

module _ (order : Headers → List (Text × Text)) (r : Request) (path : AllVisible r.path)
    (version : AllVisible r.version) (good : All IsField (order r.headers)) where
  request_line-IsPrintable : All IsPrintable (request_line r)
  unfolding request_line
  request_line-IsPrintable =
      All-joined IsPrintable space ((omega arith, omega arith), tt) (method_to_string r.method)
        (r.path ∷ r.version ∷ [])
        (printable (method_to_string r.method) (method-AllVisible r.method))
        (printable r.path path, (printable r.version version, tt))

  request_line-split :
      split space (request_line r) ≡ method_to_string r.method ∷ r.path ∷ r.version ∷ []
  unfolding request_line
  request_line-split =
      split-space (method_to_string r.method) (r.path ∷ r.version ∷ [])
        (All-weaken (method_to_string r.method) visible-32 (method-AllVisible r.method))
        (All-weaken r.path visible-32 path, (All-weaken r.version visible-32 version, tt))

  head : List ℕ
  head = joined crlf (request_line r) (map field_line (order r.headers))

  head_found : (rest : List ℕ) → find end_head (head ++ (end_head ++ rest)) ≡ some (length head)
  unfolding head
  head_found rest =
      find-end_head (request_line r) (map field_line (order r.headers)) rest
        (All-weaken (request_line r) printable-13 request_line-IsPrintable)
        (fields-Line (order r.headers) good)

  head_lines : split crlf head ≡ request_line r ∷ map field_line (order r.headers)
  unfolding head
  head_lines =
      split-crlf (request_line r) (map field_line (order r.headers))
        (All-weaken (request_line r) printable-13 request_line-IsPrintable)
        (All-weaken_each (map field_line (order r.headers))
          (λ text h. All-weaken text printable-13 h) (fields-IsPrintable (order r.headers) good))

  reads :
      (rest : List ℕ)
      → server_request (head ++ (end_head ++ rest))
        ≡ some (record {
          method = method_to_string r.method;
          path = r.path;
          version = r.version;
          fields = order r.headers;
          rest = rest;
        })
  reads rest = rw (
    server_request,
    head_found rest,
    take_exact (length head) head (end_head ++ rest) refl,
    ← drop-add (length head) 4 (head ++ (end_head ++ rest)),
    drop_exact (length head) head (end_head ++ rest) refl,
    head_lines,
    request_line-split,
    read_fields-field_line (order r.headers) good,
  )

  -- A server that reads after RFC 7230 reads the request of the client back, whatever follows: the
  -- method, the path, the version and the fields; and under each name it finds the value that the
  -- client has put there, in whatever order the `HashMap` gives its entries. Path and version are
  -- of visible characters, the names of the fields have no colon and differ from each other, and the
  -- values are of printable characters with no white space at their ends.
  pub server_request-serialize :
      (rest : List ℕ)
      → Perm r.headers (order r.headers)
      → Distinct r.headers
      → (server_request (serialize order r ++ rest)
          ≡ some (record {
            method = method_to_string r.method;
            path = r.path;
            version = r.version;
            fields = order r.headers;
            rest = rest;
          }))
        × ((name : Text) → lookup name (order r.headers) ≡ lookup name r.headers)
  unfolding head
  server_request-serialize rest some_order distinct = (
    ap server_request (written_as order r rest) ∙ reads rest,
    λ name. sym (lookup-Perm name some_order distinct),
  )
