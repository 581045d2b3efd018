-- ===== src/Sync/Input/Status.antt =====
-- The status with which the client answers a close frame (`handle_control_frame` of
-- websocket/src/sync/client.rs over websocket/src/ws_basic/status_code.rs).
use websocket_std.Prelude.{
  ℕ, ◌≡◌, Bool, true, false, ◌||◌, ◌==◌, if◌then◌else◌, bit_and, arith, ◌⊎◌, Bool-cases, inl, inr,
}
use websocket_std.WsBasic.StatusCode.{
  normal_closure, going_away, protocol_error, reserved_1004, ws_status_from_bits,
  evaulate_status_code,
}
use websocket_std.Sync.Deps.{Deps}
use websocket_std.Sync.Input.{answer_status}

-- The statuses that `evaulate_status_code` takes for no error.
abbrev pub is_harmless : ℕ → Bool
is_harmless n = n == normal_closure || n == going_away || n == reserved_1004

harmless_cases :
    (n : ℕ) → is_harmless n ≡ true → (n ≡ normal_closure) ⊎ (n ≡ going_away) ⊎ (n ≡ reserved_1004)
harmless_cases n h = ground arith

repeats :
    (deps : Deps) (n : ℕ) → is_harmless n ≡ true → bit_and n 1023 ≡ n → answer_status deps n ≡ n
unfolding answer_status ws_status_from_bits evaulate_status_code
repeats deps n h k = ground (arith, deps.bitflags.from_bits_lem 1023 n)

refuses : (deps : Deps) (n : ℕ) → is_harmless n ≡ false → answer_status deps n ≡ protocol_error
unfolding answer_status ws_status_from_bits evaulate_status_code
refuses deps n h = ground (arith, deps.bitflags.from_bits_lem 1023 n)

-- Whatever the server sends, the answer repeats the statuses 1000, 1001 and 1004 and is 1002, a
-- protocol error, for every other number.
pub answer_status_lem :
    (deps : Deps) (n : ℕ) → answer_status deps n ≡ (if is_harmless n then n else protocol_error)
answer_status_lem deps n = elim (Bool-cases (is_harmless n)) [
  | inl h ↦ rw h (
      repeats deps n h
        (elim (harmless_cases n h) [ inl e ↦ rw e | inr (inl e) ↦ rw e | inr (inr e) ↦ rw e ]))
  | inr h ↦ rw h (refuses deps n h)
]
