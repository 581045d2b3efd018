-- ===== src/Http/Response/RoundTrip.antt =====
-- `Response::parse` (websocket/src/http/response.rs) reads back what a server writes.
use websocket_std.Prelude.{
  ◌≡◌, refl, sym, ap, ◌∙◌, List, [], ◌∷◌, ◌++◌, map, length, length-append, append-nil, All, arith,
}
use websocket_std.Outcome.{ok}
use websocket_std.Outcome.Slices.{slice-part}
use websocket_std.Std.Utf8.{from_utf8_lossy_kept}
use websocket_std.Std.Str.{split, trim}
use websocket_std.Std.Str.Decimal.{decimal, decimal-AllVisible, parse_u16-decimal}
use websocket_std.Std.Str.Split.{space, find-byte, split-space}
use websocket_std.Std.Str.Trim.{AllVisible, trim-AllVisible, trim-space}
use websocket_std.Http.Headers.{Text, Headers, insert}
use websocket_std.Http.Response.{ParseError, Response, parse_headers, non_empty, parse, parse_lines}
use websocket_std.Http.Response.Written.{
  Written, status_line, field_line, write, IsPrintable, IsField, IsWritten,
}
use websocket_std.Http.Response.Heads.{
  All-weaken, All-weaken_each, All-joined, printable, visible-32, parse-write_lines,
}

-- The fields, one after the other, under their names in lower case.
abbrev pub inserted : (Text → Text) → List (Text × Text) → Headers → Headers
inserted lower [] headers = headers
inserted lower (field ∷ fields) headers =
    inserted lower fields (insert (lower field.0) field.1 headers)

-- What is read of a response.
abbrev pub read_back : (Text → Text) → Written → Response
read_back lower w = record {
  version = w.version;
  status_code = w.status;
  status_text = w.word;
  headers = non_empty (inserted lower w.fields []);
  body = non_empty (from_utf8_lossy_kept w.body);
}

parse_headers-fields :
    (lower : Text → Text) (fields : List (Text × Text)) (headers : Headers)
    → All IsField fields
    → parse_headers lower (map field_line fields) headers ≡ ok (inserted lower fields headers)
unfolding parse_headers
parse_headers-fields lower [] headers h = refl
parse_headers-fields lower ((key, value) ∷ fields) headers (field, h) =
    let line : Text = key ++ 58 ∷ 32 ∷ value in
    let trimmed : trim (32 ∷ value) ≡ value = trim-space value ∙ field.3 in
    rw
      (
        find-byte 58 key (32 ∷ value) field.1,
        slice-part ParseError 0 (length key) [] key (58 ∷ 32 ∷ value) line refl refl (omega arith),
        slice-part ParseError (length key) (length line) key (58 ∷ 32 ∷ value) [] line
            (ap (◌++◌ key) (sym (append-nil (58 ∷ 32 ∷ value)))) refl
            (length-append key (58 ∷ 32 ∷ value)),
        slice-part ParseError 1 (length (58 ∷ 32 ∷ value)) (58 ∷ []) (32 ∷ value) []
            (58 ∷ 32 ∷ value) (ap (λ (v : Text). 58 ∷ 32 ∷ v) (sym (append-nil value))) refl
            (omega arith),
        trim-AllVisible key field.0,
        trimmed,
      )
      (parse_headers-fields lower fields (insert (lower key) value headers) h)

module _ (w : Written) (good : IsWritten w) where
  rest_words : List Text
  rest_words = decimal w.status ∷ w.word ∷ w.words

  words-AllVisible : All AllVisible rest_words
  unfolding rest_words
  words-AllVisible = (decimal-AllVisible w.status, (good.word, good.words))

  status_line-IsPrintable : All IsPrintable (status_line w)
  unfolding rest_words
  status_line-IsPrintable =
      All-joined IsPrintable space ((omega arith, omega arith), tt) w.version rest_words
        (printable w.version good.version) (All-weaken_each rest_words printable words-AllVisible)

  line_split : split space (status_line w) ≡ w.version ∷ decimal w.status ∷ w.word ∷ w.words
  unfolding rest_words
  line_split =
      split-space w.version rest_words (All-weaken w.version visible-32 good.version)
        (All-weaken_each rest_words (λ text h. All-weaken text visible-32 h) words-AllVisible)

  -- A response as RFC 7230 writes it, of visible characters, with a status of 16 bits, is read back:
  -- the version, the status, of the reason phrase the first word only, the fields under their names
  -- in lower case, and the body with what is not UTF-8 taken out. The names of the fields have no
  -- colon, and the values are of printable characters with no white space at their ends.
  pub parse-write : (lower : Text → Text) → parse lower (write w) ≡ ok (read_back lower w)
  unfolding parse_lines
  parse-write lower =
      let line : Text = status_line w in
      let print : All IsPrintable line = status_line-IsPrintable in
      let lines : List Text = line ∷ map field_line w.fields in
      parse-write_lines line w.fields w.body print good.fields lower
      ∙ rw
          (
            line_split,
            trim-AllVisible (decimal w.status) (decimal-AllVisible w.status),
            parse_u16-decimal w.status good.status,
            slice-part ParseError 1 (length lines) (line ∷ []) (map field_line w.fields) [] lines
                (ap (◌∷◌ line) (sym (append-nil (map field_line w.fields)))) refl (omega arith),
            parse_headers-fields lower w.fields [] good.fields,
            trim-AllVisible w.version good.version,
            trim-AllVisible w.word good.word,
          )
          refl
