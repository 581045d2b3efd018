-- ===== src/Http/Response/Heads.antt =====
-- The head of a response, as `Response::parse` (websocket/src/http/response.rs) takes it apart.
use websocket_std.Prelude.{
  ℕ, ◌+◌, ◌<◌, ◌≡◌, ◌≢◌, refl, sym, ap, ◌∙◌, List, [], ◌∷◌, ◌++◌, map, length, length-append,
  append-nil, append_assoc, some, All, All-append, arith,
}
use websocket_std.Outcome.{ok, slice}
use websocket_std.Outcome.Slices.{slice-part}
use websocket_std.Std.Utf8.{from_utf8_lossy_kept}
use websocket_std.Std.Utf8.Lossy.{IsAscii, from_utf8_lossy_kept-append}
use websocket_std.Std.Str.{find, split}
use websocket_std.Std.Str.Split.{joined, behind, crlf, end_head, Line, find-end_head, split-crlf}
use websocket_std.Std.Str.Trim.{AllVisible, IsVisible}
use websocket_std.Http.Headers.{Text}
use websocket_std.Http.Response.{ParseError, parse, parse_lines}
use websocket_std.Http.Response.Written.{field_line, write_lines, IsPrintable, IsField}

pub All-weaken : {P Q : ℕ → Type 0} (xs : List ℕ) → ((b : ℕ) → P b → Q b) → All P xs → All Q xs
All-weaken [] step h = tt
All-weaken (x ∷ xs) step h = (step x h.0, All-weaken xs step h.1)

pub All-weaken_each :
    {P Q : List ℕ → Type 0} (xs : List Text)
    → ((text : Text) → P text → Q text)
    → All P xs
    → All Q xs
All-weaken_each [] step h = tt
All-weaken_each (x ∷ xs) step h = (step x h.0, All-weaken_each xs step h.1)

module _ (P : ℕ → Type 0) (sep : List ℕ) (ok_sep : All P sep) where
  All-behind : (parts : List Text) → All (All P) parts → All P (behind sep parts)
  All-behind [] h = tt
  All-behind (part ∷ parts) h =
      All-append P sep (part ++ behind sep parts) ok_sep
        (All-append P part (behind sep parts) h.0 (All-behind parts h.1))

  pub All-joined :
      (first : Text) (parts : List Text)
      → All P first
      → All (All P) parts
      → All P (joined sep first parts)
  All-joined first parts h k = All-append P first (behind sep parts) h (All-behind parts k)

pub printable-13 : (b : ℕ) → IsPrintable b → b ≢ 13
printable-13 b h e = absurd (omega (arith, h.0, e))

pub visible-32 : (b : ℕ) → IsVisible b → b ≢ 32
visible-32 b h e = absurd (omega (arith, h.0, e))

IsVisible-IsPrintable : (b : ℕ) → IsVisible b → IsPrintable b
IsVisible-IsPrintable b h = (omega (arith, h.0), h.1)

pub printable : (text : Text) → AllVisible text → All IsPrintable text
printable text h = All-weaken text IsVisible-IsPrintable h

field_line-IsPrintable : (field : Text × Text) → IsField field → All IsPrintable (field_line field)
field_line-IsPrintable (key, value) h =
    All-append IsPrintable key (58 ∷ 32 ∷ value) (printable key h.0)
      ((omega arith, omega arith), ((omega arith, omega arith), h.2))

not_nil : (key rest : Text) (b : ℕ) → key ++ b ∷ rest ≢ []
not_nil [] rest b e = cc
not_nil (k ∷ key) rest b e = cc

pub fields-IsPrintable :
    (fields : List (Text × Text))
    → All IsField fields
    → All (All IsPrintable) (map field_line fields)
fields-IsPrintable [] h = tt
fields-IsPrintable (field ∷ fields) h =
    (field_line-IsPrintable field h.0, fields-IsPrintable fields h.1)

pub fields-Line :
    (fields : List (Text × Text)) → All IsField fields → All Line (map field_line fields)
fields-Line [] h = tt
fields-Line ((key, value) ∷ fields) h = (
  (
    not_nil key (32 ∷ value) 58,
    All-weaken (field_line (key, value)) printable-13 (field_line-IsPrintable (key, value) h.0),
  ),
  fields-Line fields h.1,
)

-- A response with this first line.
module _ (line : Text) (fields : List (Text × Text)) (body : List ℕ)
    (printed : All IsPrintable line) (good : All IsField fields) where
  abbrev pub top : Text
  top = joined crlf line (map field_line fields)

  abbrev pub lossy : Text
  lossy = from_utf8_lossy_kept body

  top-IsAscii : IsAscii top
  top-IsAscii =
      All-joined (λ b. b < 128) crlf (omega arith, (omega arith, tt)) line (map field_line fields)
        (All-weaken line (λ b h. h.1) printed)
        (All-weaken_each (map field_line fields) (λ text h. All-weaken text (λ b k. k.1) h)
          (fields-IsPrintable fields good))

  kept : from_utf8_lossy_kept (top ++ (end_head ++ body)) ≡ top ++ (end_head ++ lossy)
  kept =
      from_utf8_lossy_kept-append top (end_head ++ body) top-IsAscii
      ∙ ap (◌++◌ top) (
          from_utf8_lossy_kept-append end_head body
            (omega arith, (omega arith, (omega arith, (omega arith, tt)))))

  found : find end_head (top ++ (end_head ++ lossy)) ≡ some (length top)
  found =
      find-end_head line (map field_line fields) lossy (All-weaken line printable-13 printed)
        (fields-Line fields good)

  before : slice {F = ParseError} 0 (length top) (top ++ (end_head ++ lossy)) ≡ ok top
  before =
      slice-part ParseError 0 (length top) [] top (end_head ++ lossy) (top ++ (end_head ++ lossy))
        refl refl (omega arith)

  after :
      slice {F = ParseError}
        (length top + 4)
        (length (top ++ (end_head ++ lossy)))
        (top ++ (end_head ++ lossy))
      ≡ ok lossy
  after =
      slice-part ParseError (length top + 4) (length (top ++ (end_head ++ lossy))) (top ++ end_head)
        lossy [] (top ++ (end_head ++ lossy))
        (rw (append-nil lossy) (sym (append_assoc top end_head lossy))) (length-append top end_head)
        (omega (arith, length-append top (end_head ++ lossy)))

  in_lines : split crlf top ≡ line ∷ map field_line fields
  in_lines = split-crlf line (map field_line fields) (All-weaken line printable-13 printed) (
      All-weaken_each (map field_line fields) (λ text h. All-weaken text printable-13 h)
        (fields-IsPrintable fields good))

  -- `parse` gets to the lines.
  pub parse-write_lines :
      (lower : Text → Text)
      → parse lower (write_lines line fields body)
        ≡ parse_lines lower (line ∷ map field_line fields) lossy
  unfolding parse
  parse-write_lines lower = rw (kept, found, before, after, in_lines)
