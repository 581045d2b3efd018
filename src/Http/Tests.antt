-- ===== src/Http/Tests.antt =====
-- Runs of websocket/src/http on concrete texts.
use websocket_std.Prelude.{◌+◌, ◌≡◌, refl, [], ◌∷◌, ◌++◌, none, some, map, leb, ◌&&◌, if◌then◌else◌}
use websocket_std.Outcome.{ok, err, panic, slice}
use websocket_std.Std.Utf8.{from_utf8, from_utf8_lossy_kept}
use websocket_std.Std.Str.{codes, parse_u16, str_eq}
use websocket_std.Http.Headers.{Text, end_line}
use websocket_std.Http.Response.{parse, parse_error}

-- `to_lowercase` on ASCII.
abbrev pub ascii_lower : Text → Text
ascii_lower = map (λ c. if leb b'A' c && leb c b'Z' then c + 32 else c)

abbrev switching : Text
switching =
    codes "HTTP/1.1 101 Switching Protocols"
    ++ (end_line
        ++ (codes "Upgrade: websocket"
            ++ (end_line ++ (codes " Sec-Accept : aBc " ++ (end_line ++ end_line)))))

switching_parsed :
    parse ascii_lower (switching ++ codes "hi")
    ≡ ok (record {
      version = codes "HTTP/1.1";
      status_code = 101;
      status_text = codes "Switching";
      headers =
          some ((codes "upgrade", codes "websocket") ∷ (codes "sec-accept", codes "aBc") ∷ []);
      body = some (codes "hi");
    })
unfolding parse slice str_eq
switching_parsed = refl

-- A first line of one word.
one_word : parse ascii_lower (codes "HTTP/1.1" ++ (end_line ++ end_line)) ≡ panic
unfolding parse slice
one_word = refl

no_end : parse ascii_lower (codes "HTTP/1.1 101 x") ≡ err parse_error
unfolding parse slice
no_end = refl

euro : from_utf8 (0xe2 ∷ 0x82 ∷ 0xac ∷ []) ≡ some (0xe2 ∷ 0x82 ∷ 0xac ∷ [])
unfolding from_utf8
euro = refl

surrogate : from_utf8 (0xed ∷ 0xa0 ∷ 0x80 ∷ []) ≡ none
unfolding from_utf8
surrogate = refl

lossy :
    from_utf8_lossy_kept
      (b'a' ∷ 0xe2 ∷ 0x82 ∷ b'b' ∷ 0xff ∷ 0xef ∷ 0xbf ∷ 0xbd ∷ 0xc3 ∷ 0xa9 ∷ 0xc3 ∷ [])
    ≡ b'a' ∷ b'b' ∷ 0xc3 ∷ 0xa9 ∷ []
unfolding from_utf8_lossy_kept
lossy = refl

port : parse_u16 (codes "+65535") ≡ some 65535
unfolding parse_u16
port = refl

too_big : parse_u16 (codes "65536") ≡ none
unfolding parse_u16
too_big = refl
