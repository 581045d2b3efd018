-- ===== src/Std/Utf8/Lossy.antt =====
-- `String::from_utf8_lossy` on a text that starts with ASCII, as websocket/src/http/response.rs reads
-- it.
use websocket_std.Prelude.{ℕ, ◌<◌, ◌≡◌, refl, ap, List, [], ◌∷◌, ◌++◌, true, ltb, lt→ltb, All}
use websocket_std.Std.Utf8.{from_utf8_lossy_kept, scan, scan_step, scan_start, idle}

abbrev pub IsAscii : List ℕ → Type 0
IsAscii text = All (λ b. b < 128) text

scan-IsAscii :
    (text rest : List ℕ) → IsAscii text → scan idle (text ++ rest) ≡ text ++ scan idle rest
unfolding scan scan_step scan_start
scan-IsAscii [] rest h = refl
scan-IsAscii (b ∷ text) rest h =
    let one : ltb b 128 ≡ true = lt→ltb b 128 h.0 in
    rw one (ap (◌∷◌ b) (scan-IsAscii text rest h.1))

-- The ASCII at the start is kept as it is.
pub from_utf8_lossy_kept-append :
    (text rest : List ℕ)
    → IsAscii text
    → from_utf8_lossy_kept (text ++ rest) ≡ text ++ from_utf8_lossy_kept rest
unfolding from_utf8_lossy_kept
from_utf8_lossy_kept-append text rest h = scan-IsAscii text rest h
