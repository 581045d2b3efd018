-- ===== src/Http/Response/Tests.antt =====
-- Responses of websocket/src/http/response.rs on concrete texts.
use websocket_std.Prelude.{◌≡◌, refl, [], ◌∷◌, arith}
use websocket_std.Outcome.{ok, panic}
use websocket_std.Std.Str.{codes, trim}
use websocket_std.Std.Str.Decimal.{decimal}
use websocket_std.Std.Str.Split.{joined, space}
use websocket_std.Std.Str.Visible.{all_between, no_byte, visible, printed, without}
use websocket_std.Http.Headers.{Text}
use websocket_std.Http.Tests.{ascii_lower}
use websocket_std.Http.Response.{parse}
use websocket_std.Http.Response.Written.{Written, IsWritten, write, write_lines}
use websocket_std.Http.Response.RoundTrip.{read_back, parse-write}
use websocket_std.Http.Response.Panics.{parse_short_line}

abbrev pub accept : Text
accept = codes "c258EAFA5-E914-47DA-95CA-C5AB0DC85B11"

abbrev pub answer : Written
answer = record {
  version = codes "HTTP/1.1";
  status = 101;
  word = codes "Switching";
  words = codes "Protocols" ∷ [];
  fields = (codes "Upgrade", codes "web socket") ∷ (codes "Sec-WebSocket-Accept", accept) ∷ [];
  body = 0xc3 ∷ 0xa9 ∷ 0xff ∷ [];
}

pub answer-IsWritten : IsWritten answer
unfolding all_between no_byte trim
answer-IsWritten = record {
  version = visible (codes "HTTP/1.1") refl;
  status = omega arith;
  word = visible (codes "Switching") refl;
  words = (visible (codes "Protocols") refl, tt);
  fields = (
    (
      visible (codes "Upgrade") refl,
      without 58 (codes "Upgrade") refl,
      printed (codes "web socket") refl,
      refl,
    ),
    (
      (
        visible (codes "Sec-WebSocket-Accept") refl,
        without 58 (codes "Sec-WebSocket-Accept") refl,
        printed accept refl,
        refl,
      ),
      tt,
    ),
  );
}

parse-write_example : parse ascii_lower (write answer) ≡ ok (read_back ascii_lower answer)
parse-write_example = parse-write answer answer-IsWritten ascii_lower

parse_short_line_example :
    (parse ascii_lower (write_lines (joined space (codes "HTTP/1.1") []) [] []) ≡ panic)
    × (parse ascii_lower (write_lines (joined space (codes "HTTP/1.1") (decimal 101 ∷ [])) [] [])
        ≡ panic)
unfolding all_between
parse_short_line_example =
    parse_short_line ascii_lower (codes "HTTP/1.1") 101 [] [] (visible (codes "HTTP/1.1") refl)
      (omega arith) tt
