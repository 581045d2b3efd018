-- ===== src/WsBasic/StatusCode.antt =====
-- websocket/src/ws_basic/status_code.rs.
use websocket_std.Prelude.{ℕ, List, [], ◌∷◌, Option, Bool, true, false, ◌==◌, if◌then◌else◌}
use websocket_std.WsBasic.Bitflags.{Bitflags, union}

abbrev pub normal_closure : ℕ
normal_closure = 1000

abbrev pub going_away : ℕ
going_away = 1001

abbrev pub protocol_error : ℕ
protocol_error = 1002

abbrev pub reserved_1004 : ℕ
reserved_1004 = 1004

abbrev pub expected_status_code : ℕ
expected_status_code = 1005

-- The constants of `WSStatus`, in the order of the source.
abbrev pub ws_status_flags : List ℕ
ws_status_flags =
    normal_closure ∷ going_away ∷ protocol_error ∷ 1003 ∷ reserved_1004 ∷ expected_status_code
    ∷ 1006 ∷ 1007 ∷ 1008 ∷ 1009 ∷ 1010 ∷ 1011 ∷ 1015 ∷ []

unfoldable pub ws_status_from_bits : Bitflags → ℕ → Option ℕ
unfolding union
ws_status_from_bits bf bits = bf.from_bits (union ws_status_flags) bits

-- Whether the status is an error, and whether the connection should be closed.
unfoldable pub evaulate_status_code : ℕ → Bool × Bool
evaulate_status_code status =
    if status == normal_closure
    then (false, true)
    else if status == going_away
    then (false, true)
    else if status == reserved_1004
    then (false, false)
    else (true, true)
