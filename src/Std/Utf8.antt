-- ===== src/Std/Utf8.antt =====
-- UTF-8 as the standard library reads it: `String::from_utf8`, `String::from_utf8_lossy` and
-- `str::is_char_boundary`, used by websocket/src/sync/client.rs and websocket/src/http/response.rs.
pub mod Lossy
use websocket_std.Prelude.{
  ℕ, zero, suc, ◌-◌, List, [], ◌∷◌, ◌++◌, Bool, true, false, ◌&&◌, ◌||◌, not, leb, ltb, ◌==◌,
  if◌then◌else◌, Option, none, some, length, get_elem?,
}

-- The number of bytes of a character by its first byte, 0 if no character starts so.
abbrev pub width : ℕ → ℕ
width b =
    if ltb b 0x80
    then 1
    else if ltb b 0xc2
    then 0
    else if ltb b 0xe0
    then 2
    else if ltb b 0xf0
    then 3
    else if ltb b 0xf5
    then 4
    else 0

-- The range of the second byte: no overlong form, no surrogate, nothing above U+10FFFF.
abbrev pub second_low : ℕ → ℕ
second_low b = if b == 0xe0 then 0xa0 else if b == 0xf0 then 0x90 else 0x80

abbrev pub second_high : ℕ → ℕ
second_high b = if b == 0xed then 0x9f else if b == 0xf4 then 0x8f else 0xbf

-- `need` bytes of the current character are still to come, the next of them in `low` to `high`.
unfoldable pub utf8_from : ℕ → ℕ → ℕ → List ℕ → Bool
utf8_from zero low high [] = true
utf8_from (suc need) low high [] = false
utf8_from zero low high (b ∷ bs) =
    not (width b == 0) && utf8_from (width b - 1) (second_low b) (second_high b) bs
utf8_from (suc need) low high (b ∷ bs) = (leb low b && leb b high) && utf8_from need 0x80 0xbf bs

unfoldable pub is_utf8 : List ℕ → Bool
unfolding utf8_from
is_utf8 bytes = utf8_from 0 0 0 bytes

-- `String::from_utf8`.
unfoldable pub from_utf8 : List ℕ → Option (List ℕ)
unfolding is_utf8
from_utf8 bytes = if is_utf8 bytes then some bytes else none

-- `str::is_char_boundary`: the ends, and every byte that does not continue a character.
abbrev boundary_byte : Option ℕ → Bool
boundary_byte none = false
boundary_byte (some b) = ltb b 0x80 || leb 0xc0 b

unfoldable pub is_char_boundary : List ℕ → ℕ → Bool
is_char_boundary text i = (i == 0 || i == length text) || boundary_byte (get_elem? text i)

-- `from_utf8_lossy`, and then every replacement character taken out.
record Scan : Type 0 where
  need : ℕ
  low : ℕ
  high : ℕ
  seen : List ℕ

abbrev idle : Scan
idle = record { need = 0; low = 0; high = 0; seen = [] }

-- U+FFFD is EF BF BD.
abbrev is_replacement : List ℕ → Bool
is_replacement (a ∷ b ∷ c ∷ []) = a == 0xef && b == 0xbf && c == 0xbd
is_replacement _ = false

abbrev emit : List ℕ → List ℕ
emit char = if is_replacement char then [] else char

-- A byte where a character starts: what goes out, and the new state.
scan_start : ℕ → List ℕ × Scan
scan_start b = if width b == 0 then ([], idle) else if width b == 1 then (b ∷ [], idle) else (
  [],
  record { need = width b - 1; low = second_low b; high = second_high b; seen = b ∷ [] },
)

scan_step : Scan → ℕ → List ℕ × Scan
unfolding scan_start
scan_step s b =
    if s.need == 0
    then scan_start b
    else if leb s.low b && leb b s.high
    then (if s.need == 1
        then (emit (s.seen ++ b ∷ []), idle)
        else ([], record { need = s.need - 1; low = 0x80; high = 0xbf; seen = s.seen ++ b ∷ [] }))
    else scan_start b

scan : Scan → List ℕ → List ℕ
unfolding scan_step
scan s [] = []
scan s (b ∷ bs) = let (out, s') = scan_step s b in out ++ scan s' bs

unfoldable pub from_utf8_lossy_kept : List ℕ → List ℕ
unfolding scan
from_utf8_lossy_kept bytes = scan idle bytes
