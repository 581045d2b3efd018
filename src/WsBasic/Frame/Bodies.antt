-- ===== src/WsBasic/Frame/Bodies.antt =====
-- How `bytes_to_frame` (websocket/src/ws_basic/frame.rs) ends, on bytes that hold the whole frame.
use websocket_std.Prelude.{
  ℕ, ◌+◌, ◌-◌, ◌%◌, ◌^◌, ◌≤◌, ◌<◌, ◌≡◌, ◌∙◌, List, [], ◌++◌, length, some, none, true, false, arith,
  length-append, take, drop, le→ltb, take-append, drop_exact, append_assoc,
}
use websocket_std.Outcome.{WebSocketError, ok, slice, slice-ok}
use websocket_std.Core.Binary.{to_be_bytes, length-to_be_bytes, bytes_to_u16-to_be_bytes}
use websocket_std.WsBasic.Frame.Parse.{body, slice_at}
use websocket_std.WsBasic.Frame.{
  data_frame, control_frame, new_data, new_control, read_data, read_control, is_data,
}

module _ (flag code i len : ℕ) (head tail : List ℕ) (at : length head ≡ i) (low : i ≤ 16) where
  pub body_data :
      (payload : List ℕ)
      → is_data code ≡ true
      → length payload ≡ len
      → len < 2 ^ 63
      → body flag code len i (head ++ (payload ++ tail))
        ≡ ok (some (data_frame (new_data flag code payload false none []), i + len))
  unfolding read_data
  body_data payload d l fits =
      let sum : (len + i) % 2 ^ 64 ≡ i + len = omega arith in
      let sum' : (i + len) % 2 ^ 64 ≡ i + len = omega arith in
      let there : i + len ≤ length (head ++ (payload ++ tail)) =
        omega (arith, length-append head (payload ++ tail), length-append payload tail) in
      rw (sum, le→ltb _ _ there, d, read_data, slice_at i len head payload tail at l, sum')

  pub body_control :
      (status : ℕ) (reason : List ℕ)
      → is_data code ≡ false
      → status < 2 ^ 16
      → 2 ≤ i
      → i ≤ len
      → len ≤ 2 + length reason
      → len < 2 ^ 63
      → body flag code len i (head ++ (to_be_bytes 2 status ++ (reason ++ tail)))
        ≡ ok (
            some (
              control_frame
                  (new_control flag code (some status) (take (len - i) reason) false none []),
              i + len,
            ))
  unfolding read_control
  body_control status reason d st above le enough fits =
      let bytes : List ℕ = head ++ (to_be_bytes 2 status ++ (reason ++ tail)) in
      let two : length (to_be_bytes 2 status) ≡ 2 = length-to_be_bytes 2 status in
      let sum : (len + i) % 2 ^ 64 ≡ i + len = omega arith in
      let sum' : (i + len) % 2 ^ 64 ≡ i + len = omega arith in
      let end : (len + 2) % 2 ^ 64 ≡ len + 2 = omega arith in
      let size : length bytes ≡ i + (2 + (length reason + length tail)) = omega (
        arith,
        length-append head (to_be_bytes 2 status ++ (reason ++ tail)),
        length-append (to_be_bytes 2 status) (reason ++ tail),
        length-append reason tail,
      ) in
      let there : i + len ≤ length bytes = omega arith in
      let behind : drop (i + 2) bytes ≡ reason ++ tail =
        rw (← append_assoc head (to_be_bytes 2 status) (reason ++ tail)) (
          drop_exact (i + 2) (head ++ to_be_bytes 2 status) (reason ++ tail)
            (omega (arith, length-append head (to_be_bytes 2 status)))) in
      let width : len + 2 - (i + 2) ≡ len - i = omega arith in
      let rest : slice {F = WebSocketError} (i + 2) (len + 2) bytes ≡ ok (take (len - i) reason) =
        slice-ok WebSocketError (i + 2) (len + 2) bytes (omega arith) (omega arith)
        ∙ rw (behind, width, take-append (len - i) reason tail (omega arith)) in
      rw (
        sum,
        le→ltb _ _ there,
        d,
        read_control,
        slice_at i 2 head (to_be_bytes 2 status) (reason ++ tail) at two,
        bytes_to_u16-to_be_bytes status st,
        end,
        rest,
        sum',
      )
