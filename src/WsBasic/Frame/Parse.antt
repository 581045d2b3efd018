-- ===== src/WsBasic/Frame/Parse.antt =====
-- The stages of `bytes_to_frame` (websocket/src/ws_basic/frame.rs), one lemma for each.
use mathlib.Core.Path.{fun_ext}
use websocket_std.Prelude.{
  ℕ, ◌+◌, ◌-◌, ◌*◌, ◌/◌, ◌%◌, ◌^◌, ◌≤◌, ◌<◌, ◌≡◌, refl, ap, ◌∙◌, List, [], ◌∷◌, ◌++◌, length,
  Option, none, some, true, false, ◌==◌, ltb, if◌then◌else◌, bit_and, bit_or, arith, length-append,
  take_exact, drop_exact, le→ltb, lt→ltb, ltb→lt, le→leb, lt→leb, Bool-cases, inl, inr,
}
use websocket_std.Prelude.Bits.{bit_and_length, bit_and_mask_bit, bit_or_masked, zero-bit_or}
use websocket_std.Outcome.{
  WebSocketResult, WebSocketError, ok, err, invalid_frame, ◌>>=◌, slice, slice-ok,
}
use websocket_std.Core.Binary.{
  to_be_bytes, length-to_be_bytes, bytes_to_u16-to_be_bytes, bytes_to_u64-to_be_bytes,
}
use websocket_std.WsBasic.Bitflags.{Bitflags}
use websocket_std.WsBasic.Mask.{Mask}
use websocket_std.WsBasic.Header.{length_bytes, mask_bit}
use websocket_std.WsBasic.Header.Codes.{is_known, flag_from_bits-byte, opcode_from_bits-byte}
use websocket_std.WsBasic.Frame.{
  Frame, payload_start, read_body, read_data, read_control, read_frame, read_mask, is_data, add64,
}

-- What is read from the mask on: the test of the mask bit never holds.
abbrev pub body : ℕ → ℕ → ℕ → ℕ → List ℕ → WebSocketResult (Option (Frame × ℕ))
body flag code len i bytes =
    if ltb (length bytes) (add64 len i)
    then ok none
    else (if is_data code
        then read_data flag code none i len bytes
        else read_control flag code none i len bytes)
      >>= λ f. ok (some f)

pub mask_bit_unseen : (b : ℕ) → b < 256 → (bit_and 0x80 b == 1) ≡ false
mask_bit_unseen b h = rw (bit_and_mask_bit b h) (ground arith)

pub read_body_lem :
    (flag code b1 len i : ℕ) (bytes : List ℕ)
    → b1 < 256
    → read_body flag code b1 len i bytes ≡ body flag code len i bytes
unfolding read_body read_mask
read_body_lem flag code b1 len i bytes h = rw (mask_bit_unseen b1 h)

module _ (bf : Bitflags) (b0 b1 : ℕ) (bytes : List ℕ) (h0 : b0 < 256) (h1 : b1 < 256) where
  pub read_frame_known :
      is_known (b0 % 32) ≡ true
      → read_frame bf b0 b1 bytes
        ≡ (payload_start b1 bytes >>= λ (len, i). body (b0 / 16 * 16) (b0 % 32) len i bytes)
  unfolding read_frame
  read_frame_known known =
      rw (flag_from_bits-byte bf b0 h0, opcode_from_bits-byte bf b0 h0, known, read_frame)
        (ap (◌>>=◌ (payload_start b1 bytes))
          (fun_ext λ x. read_body_lem (b0 / 16 * 16) (b0 % 32) b1 x.0 x.1 bytes h1))

  pub read_frame_unknown :
      is_known (b0 % 32) ≡ false → read_frame bf b0 b1 bytes ≡ err invalid_frame
  unfolding read_frame
  read_frame_unknown unknown =
      rw (flag_from_bits-byte bf b0 h0, opcode_from_bits-byte bf b0 h0, unknown, read_frame)

pub slice_at :
    (i len : ℕ) (head payload rest : List ℕ)
    → length head ≡ i
    → length payload ≡ len
    → slice {F = WebSocketError} i (i + len) (head ++ (payload ++ rest)) ≡ ok payload
slice_at i len head payload rest hi hl =
    let fits : i + len ≤ length (head ++ (payload ++ rest)) =
      omega (arith, length-append head (payload ++ rest), length-append payload rest) in
    let e : i + len - i ≡ len = omega arith in
    slice-ok WebSocketError i (i + len) (head ++ (payload ++ rest)) (omega arith) fits
    ∙ rw (e, drop_exact i head (payload ++ rest) hi, take_exact len payload rest hl)

second_byte :
    (mask : Option Mask) (v : ℕ)
    → v < 128
    → (bit_or (mask_bit mask) v < 256) × (bit_and 0x7f (bit_or (mask_bit mask) v) ≡ v)
second_byte none v h =
    rw (zero-bit_or v (omega arith)) (omega arith, bit_and_length v (omega arith) ∙ omega arith)
second_byte (some m) v h =
    rw (bit_or_masked v h) (omega arith, bit_and_length (v + 128) (omega arith) ∙ omega arith)

-- The bytes of a length: the second byte of the frame, and the long form.
abbrev pub Reads : ℕ → List ℕ → List ℕ → ℕ → Type 0
Reads b0 lb rest len =
    (b1 : ℕ) × (ext : List ℕ) × (lb ≡ b1 ∷ ext)
    × (b1 < 256)
    × (length ext ≤ 8)
    × (payload_start b1 (b0 ∷ b1 ∷ (ext ++ rest)) ≡ ok (len, 2 + length ext))

module _ (b0 : ℕ) (mask : Option Mask) (len : ℕ) (rest : List ℕ) where
  short_Reads : len < 125 → Reads b0 (length_bytes mask len) rest len
  unfolding length_bytes payload_start
  short_Reads h =
      let e : len % 256 ≡ len = omega arith in
      let (lt, back) = second_byte mask len (omega arith) in
      (
        bit_or (mask_bit mask) len,
        [],
        rw (e, lt→ltb len 125 h),
        lt,
        omega arith,
        rw back (ground arith),
      )

  medium_Reads : 125 ≤ len → len < 2 ^ 16 → Reads b0 (length_bytes mask len) rest len
  unfolding length_bytes payload_start
  medium_Reads h k =
      let b1 : ℕ = bit_or (mask_bit mask) 126 in
      let e : len % 2 ^ 16 ≡ len = omega arith in
      let (lt, back) = second_byte mask 126 (omega arith) in
      let two : length (to_be_bytes 2 len) ≡ 2 = length-to_be_bytes 2 len in
      (
        b1,
        to_be_bytes 2 len,
        rw (le→ltb len 125 h, le→leb len 65535 (omega arith), e),
        lt,
        omega arith,
        rw (
          back,
          two,
          slice_at 2 2 (b0 ∷ b1 ∷ []) (to_be_bytes 2 len) rest refl two,
          bytes_to_u16-to_be_bytes len k,
        ),
      )

  long_Reads : 2 ^ 16 ≤ len → len < 2 ^ 64 → Reads b0 (length_bytes mask len) rest len
  unfolding length_bytes payload_start
  long_Reads h k =
      let b1 : ℕ = bit_or (mask_bit mask) 127 in
      let (lt, back) = second_byte mask 127 (omega arith) in
      let eight : length (to_be_bytes 8 len) ≡ 8 = length-to_be_bytes 8 len in
      (
        b1,
        to_be_bytes 8 len,
        rw (le→ltb len 125 (omega arith), lt→leb len 65535 (omega arith)),
        lt,
        omega arith,
        rw (
          back,
          eight,
          slice_at 2 8 (b0 ∷ b1 ∷ []) (to_be_bytes 8 len) rest refl eight,
          bytes_to_u64-to_be_bytes len k,
        ),
      )

  -- `payload_start` reads back each length that the header wrote, in the form that it wrote it.
  pub length_bytes-Reads : len < 2 ^ 64 → Reads b0 (length_bytes mask len) rest len
  length_bytes-Reads h = elim (Bool-cases (ltb len 125)) [
    | inl short ↦ short_Reads (ltb→lt len 125 short)
    | inr long ↦ elim (Bool-cases (ltb len (2 ^ 16))) [
      | inl fits ↦ medium_Reads (ground arith) (ltb→lt len (2 ^ 16) fits)
      | inr over ↦ long_Reads (ground arith) h
    ]
  ]
