-- ===== src/WsBasic/Frame/ControlRoundTrip.antt =====
-- What `bytes_to_frame` reads back of the control frames that `Frame::serialize` wrote
-- (websocket/src/ws_basic/frame.rs).
use websocket_std.Prelude.{
  ℕ, ◌+◌, ◌-◌, ◌%◌, ◌^◌, ◌≤◌, ◌<◌, ◌≡◌, refl, ◌∙◌, List, [], ◌++◌, length, none, some, true, false,
  arith, ltb, if◌then◌else◌, length-append, append_assoc, take, le→ltb, lt→ltb, take_all,
  Bool-cases, inl, inr, length-take,
}
use websocket_std.Outcome.{ok}
use websocket_std.Core.Binary.{to_be_bytes, length-to_be_bytes}
use websocket_std.WsBasic.Bitflags.{Bitflags}
use websocket_std.WsBasic.Header
use websocket_std.WsBasic.Header.{Header, length_bytes}
use websocket_std.WsBasic.Header.Codes.{is_known}
use websocket_std.WsBasic.Frame.Written.{IsFlag, IsHeader, prefix_len, bytes_to_frame-header}
use websocket_std.WsBasic.Frame.Bodies.{body_control}
use websocket_std.WsBasic.Frame.{control_frame, new_control, serialize, bytes_to_frame, is_data}
use websocket_std.WsBasic.Frame.RoundTrip.{length-header, prefix_len-le}

abbrev control_header : ℕ → ℕ → ℕ → Header
control_header flag code len = record {
  flag = flag;
  code = code;
  mask_key = none;
  payload_len = len;
}

pub new_control-short :
    (flag code status : ℕ) (reason : List ℕ)
    → length reason ≤ 123
    → new_control flag code (some status) reason false none [] ≡ record {
      header = control_header flag code (length reason + 2);
      payload = to_be_bytes 2 status ++ reason;
      status_code = some status;
    }
unfolding new_control
new_control-short flag code status reason h = rw (le→ltb 125 (length reason + 2) (omega arith))

new_control-long :
    (flag code status : ℕ) (reason : List ℕ)
    → 123 < length reason
    → new_control flag code (some status) reason false none [] ≡ record {
      header = control_header flag code 125;
      payload = to_be_bytes 2 status ++ take 122 reason;
      status_code = some status;
    }
unfolding new_control
new_control-long flag code status reason h = rw (lt→ltb 125 (length reason + 2) (omega arith))

-- The long form of the length starts at 125.
control_prefix :
    (flag code n : ℕ)
    → n ≤ 123
    → let i = prefix_len (control_header flag code (n + 2)) in
      (i ≡ (if ltb n 123 then 2 else 4)) × (2 ≤ i) × (i ≤ n + 2)
unfolding length_bytes
control_prefix flag code n h = ground (arith, length-to_be_bytes 2 ((n + 2) % 2 ^ 16))

-- What is read of the reason.
control_seen :
    (flag code : ℕ) (reason : List ℕ)
    → length reason ≤ 123
    → take (length reason + 2 - prefix_len (control_header flag code (length reason + 2))) reason
      ≡ (if ltb (length reason) 123 then reason else take 121 reason)
control_seen flag code reason h =
    let (shape, _, _) = control_prefix flag code (length reason) h in
    rw shape (elim (Bool-cases (ltb (length reason) 123)) [
      | inl short ↦ rw short (take_all (length reason + 2 - 2) reason (omega arith))
      | inr full ↦ let e : length reason + 2 - 4 ≡ 121 = ground arith in rw (full, e)
    ])

module _ (bf : Bitflags) (flag code : ℕ) (fl : IsFlag flag) where
  -- A control frame with a status: one of at most 124 bytes is read back as it was, and one of 125
  -- bytes (a reason of 123) loses the last two bytes of its reason. Both take exactly their bytes.
  pub bytes_to_frame-serialize_control :
      (status : ℕ) (reason rest : List ℕ)
      → is_data code ≡ false
      → is_known code ≡ true
      → code < 16
      → status < 2 ^ 16
      → length reason ≤ 123
      → let f = control_frame (new_control flag code (some status) reason false none []) in
        let seen = if ltb (length reason) 123 then reason else take 121 reason in
        bytes_to_frame bf (serialize f ++ rest)
        ≡ ok (
            some (
              control_frame (new_control flag code (some status) seen false none []),
              length (serialize f),
            ))
  unfolding serialize
  bytes_to_frame-serialize_control status reason rest d k lt st short =
      let h : Header = control_header flag code (length reason + 2) in
      let hv : IsHeader h = record { flag = fl; code = lt; known = k; fits = omega arith } in
      let payload : List ℕ = to_be_bytes 2 status ++ reason in
      let size : length (Header.serialize h) ≡ prefix_len h = length-header h refl in
      let (shape, low, high) = control_prefix flag code (length reason) short in
      let two : 2 + length reason ≡ length reason + 2 = omega arith in
      rw
        (
          new_control-short flag code status reason short,
          append_assoc (Header.serialize h) payload rest,
          append_assoc (to_be_bytes 2 status) reason rest,
        )
        (bytes_to_frame-header bf h (to_be_bytes 2 status ++ (reason ++ rest)) hv
          ∙ body_control flag code (prefix_len h) (length reason + 2) (Header.serialize h) rest size
              (omega (arith, prefix_len-le h)) status reason d st low high (omega arith)
              (omega arith)
          ∙ rw (
            control_seen flag code reason short,
            length-append (Header.serialize h) payload,
            length-append (to_be_bytes 2 status) reason,
            length-to_be_bytes 2 status,
            size,
            two,
          ))

  -- A control frame with a status and a reason of more than 123 bytes is never complete: its header
  -- promises 125 bytes of payload, and 124 follow.
  pub bytes_to_frame-serialize_long_control :
      (status : ℕ) (reason : List ℕ)
      → is_data code ≡ false
      → is_known code ≡ true
      → code < 16
      → 123 < length reason
      → bytes_to_frame bf
          (serialize (control_frame (new_control flag code (some status) reason false none [])))
        ≡ ok none
  unfolding serialize
  bytes_to_frame-serialize_long_control status reason d k lt long =
      let h : Header = control_header flag code 125 in
      let hv : IsHeader h = record { flag = fl; code = lt; known = k; fits = omega arith } in
      let payload : List ℕ = to_be_bytes 2 status ++ take 122 reason in
      let size : length (Header.serialize h ++ payload) ≡ 128 = omega (
        arith,
        length-append (Header.serialize h) payload,
        length-append (to_be_bytes 2 status) (take 122 reason),
        length-to_be_bytes 2 status,
        length-take 122 reason,
        length-header h refl,
        (control_prefix flag code 123 (omega arith)).0,
      ) in
      rw (new_control-long flag code status reason long) (
        bytes_to_frame-header bf h payload hv
        ∙ rw (size, (control_prefix flag code 123 (omega arith)).0))
