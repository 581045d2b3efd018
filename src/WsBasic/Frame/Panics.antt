-- ===== src/WsBasic/Frame/Panics.antt =====
-- Where `bytes_to_frame` (websocket/src/ws_basic/frame.rs) panics, and where it does not.
use websocket_std.Prelude.{
  ℕ, ◌+◌, ◌*◌, ◌/◌, ◌%◌, ◌^◌, ◌≤◌, ◌<◌, ◌≡◌, refl, subst, ◌∙◌, List, [], ◌∷◌, ◌++◌, length, none,
  some, true, false, arith, inl, inr, ◌⊎◌, ltb, if◌then◌else◌, length-append, length-take,
  Bool-cases, le→ltb, lt→ltb, ltb→lt, take, drop, take-append-drop,
}
use websocket_std.Prelude.Bits.{bit_and_length}
use websocket_std.Outcome.{
  WebSocketError, ok, panic, slice-panic, NotErr-slice, NotErr-unwrap, bind-panic,
}
use websocket_std.Core.Binary.{bytes_to_u16}
use websocket_std.WsBasic.Bitflags.{Bitflags}
use websocket_std.WsBasic.Header.Codes.{is_known}
use websocket_std.WsBasic.Frame.Parse.{body, read_frame_known}
use websocket_std.WsBasic.Frame.Bodies.{body_data}
use websocket_std.WsBasic.Frame.{
  data_frame, new_data, payload_start, read_control, bytes_to_frame, is_data,
}

payload_start_short :
    (b1 : ℕ) (bs : List ℕ) → b1 < 256 → b1 % 128 < 126 → payload_start b1 bs ≡ ok (b1 % 128, 2)
unfolding payload_start
payload_start_short b1 bs h k = rw (bit_and_length b1 h) (ground arith)

payload_start_cut :
    (b1 : ℕ) (bs : List ℕ)
    → b1 < 256
    → ((b1 % 128 ≡ 126) × (length bs < 4)) ⊎ ((b1 % 128 ≡ 127) × (length bs < 10))
    → payload_start b1 bs ≡ panic
unfolding payload_start
payload_start_cut b1 bs h (inl (e, short)) =
    rw (bit_and_length b1 h, e, slice-panic WebSocketError 2 4 bs (inr short))
payload_start_cut b1 bs h (inr (e, short)) =
    rw (bit_and_length b1 h, e, slice-panic WebSocketError 2 10 bs (inr short))

-- The reason of a payload below two bytes ends before it starts.
read_control_short :
    (flag code len : ℕ) (bs : List ℕ) → len < 2 → read_control flag code none 2 len bs ≡ panic
unfolding read_control
read_control_short flag code len bs h =
    let e : (len + 2) % 2 ^ 64 ≡ len + 2 = omega arith in
    rw (e, slice-panic WebSocketError 4 (len + 2) bs (inl (omega arith)))
      (bind-panic _ _ (NotErr-slice _ 2 4 bs)
        λ s. bind-panic _ _ (NotErr-unwrap _ (bytes_to_u16 s)) (λ n. refl))

body_short :
    (flag code len : ℕ) (head rest : List ℕ)
    → is_data code ≡ true
    → length head ≡ 2
    → len < 126
    → body flag code len 2 (head ++ rest) ≡ (
        if ltb (length rest) len
        then ok none
        else ok (some (data_frame (new_data flag code (take len rest) false none []), len + 2)))
body_short flag code len head rest d two short = elim (Bool-cases (ltb (length rest) len)) [
  | inl more ↦
      let e : (len + 2) % 2 ^ 64 ≡ len + 2 = omega arith in
      let wait : length (head ++ rest) < len + 2 =
        omega (arith, length-append head rest, ltb→lt (length rest) len more) in
      rw (more, e, lt→ltb _ _ wait)
  | inr there ↦
      let size : length (take len rest) ≡ len = ground (arith, length-take len rest) in
      let end : 2 + len ≡ len + 2 = omega arith in
      rw there (
        subst
          (λ (r : List ℕ).
            body flag code len 2 (head ++ r)
            ≡ ok (some (data_frame (new_data flag code (take len rest) false none []), 2 + len)))
          (take-append-drop len rest)
          (body_data flag code 2 len head (drop len rest) two (omega arith) (take len rest) d size
            (omega arith))
        ∙ rw end)
]

module _ (bf : Bitflags) (b0 b1 : ℕ) (rest : List ℕ) (h0 : b0 < 256) (h1 : b1 < 256) where
  -- A text, binary or continuation frame whose length has seven bits never panics: it is read as
  -- soon as its whole payload is there, whatever the mask bit and the flags are, and not before.
  pub bytes_to_frame_short_data :
      is_data (b0 % 32) ≡ true
      → b1 % 128 < 126
      → let len = b1 % 128 in
        bytes_to_frame bf (b0 ∷ b1 ∷ rest) ≡ (
          if ltb (length rest) len
          then ok none
          else ok (
              some (
                data_frame (new_data (b0 / 16 * 16) (b0 % 32) (take len rest) false none []),
                len + 2,
              )))
  unfolding bytes_to_frame
  bytes_to_frame_short_data d short =
      let bs : List ℕ = b0 ∷ b1 ∷ rest in
      read_frame_known bf b0 b1 bs h0 h1 (ground arith)
      ∙ rw (payload_start_short b1 bs h1 short)
          (body_short (b0 / 16 * 16) (b0 % 32) (b1 % 128) (b0 ∷ b1 ∷ []) rest d refl (omega arith))

  -- When the extended length has not come as a whole, a frame with a known code is a panic, where
  -- the source means to wait for more bytes.
  pub bytes_to_frame_cut_length :
      is_known (b0 % 32) ≡ true
      → ((b1 % 128 ≡ 126) × (length rest < 2)) ⊎ ((b1 % 128 ≡ 127) × (length rest < 8))
      → bytes_to_frame bf (b0 ∷ b1 ∷ rest) ≡ panic
  unfolding bytes_to_frame
  bytes_to_frame_cut_length known cut =
      read_frame_known bf b0 b1 (b0 ∷ b1 ∷ rest) h0 h1 known
      ∙ rw (payload_start_cut b1 (b0 ∷ b1 ∷ rest) h1 (omega arith))

  -- A whole control frame whose payload has no byte or one, such as a ping or a close without a
  -- body, is a panic.
  pub bytes_to_frame_short_control :
      is_known (b0 % 32) ≡ true
      → is_data (b0 % 32) ≡ false
      → b1 % 128 < 2
      → b1 % 128 ≤ length rest
      → bytes_to_frame bf (b0 ∷ b1 ∷ rest) ≡ panic
  unfolding bytes_to_frame
  bytes_to_frame_short_control known d short there =
      let bs : List ℕ = b0 ∷ b1 ∷ rest in
      let e : (b1 % 128 + 2) % 2 ^ 64 ≡ b1 % 128 + 2 = omega arith in
      read_frame_known bf b0 b1 bs h0 h1 known
      ∙ rw (
        payload_start_short b1 bs h1 (omega arith),
        e,
        le→ltb (length bs) (b1 % 128 + 2) (omega arith),
        d,
        read_control_short (b0 / 16 * 16) (b0 % 32) (b1 % 128) bs short,
      )
