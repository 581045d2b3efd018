-- ===== src/WsBasic/Frame/Bounds.antt =====
-- What a frame that `bytes_to_frame` read looks like
-- (websocket/src/ws_basic/frame.rs).
use websocket_std.Prelude.{
  ℕ, ◌+◌, ◌*◌, ◌/◌, ◌-◌, ◌%◌, ◌^◌, ◌≤◌, ◌<◌, ◌≡◌, refl, sym, ap, ◌∙◌, List, [], ◌∷◌, length, none,
  some, false, arith, inl, inr, ◌==◌, ltb, bit_and, length-append, length-take, length-drop,
  Bool-cases, ltb→lt, All-take, All-drop, take, drop,
}
use websocket_std.Prelude.Bits.{bit_and_length}
use websocket_std.Outcome.{
  WebSocketResult, WebSocketError, ok, slice, slice-cases, unwrap, >>=-eq-ok,
}
use websocket_std.Core.Binary.{
  IsByte, IsBytes, IsVec, bytes_to_u16, bytes_to_u64, from_be_bytes, from_be_bytes-lt, to_be_bytes,
  length-to_be_bytes,
}
use websocket_std.WsBasic.Bitflags.{Bitflags}
use websocket_std.WsBasic.Header.Codes.{is_known}
use websocket_std.WsBasic.Frame.Parse.{body, read_frame_known, read_frame_unknown}
use websocket_std.WsBasic.Frame.{
  Frame, data_frame, control_frame, get_header, get_data, new_data, new_control, payload_start,
  read_data, read_control, bytes_to_frame, is_data, add64,
}

slice-eq-ok :
    (F : Type 0) (from to : ℕ) (xs r : List ℕ)
    → slice {F = F} from to xs ≡ ok r
    → (from ≤ to) × (to ≤ length xs) × (r ≡ take (to - from) (drop from xs))
slice-eq-ok F from to xs r h = elim (slice-cases F from to xs) [
  | inl (le, fits, e) ↦ (le, fits, cc)
  | inr (_, e) ↦ cc (e, h)
]

u16-lt :
    (s : List ℕ) {n : ℕ}
    → IsBytes s
    → unwrap {F = WebSocketError} (bytes_to_u16 s) ≡ ok n
    → n < 2 ^ 64
unfolding bytes_to_u16
u16-lt s hs h = elim (Bool-cases (length s == 2)) [
  | inl e ↦
      let two : length s ≡ 2 = ground arith in
      let bound : from_be_bytes s < 256 ^ 2 = rw two at (from_be_bytes-lt s hs) in ground arith
  | inr e ↦ cc (rw e at h)
]

u64-lt :
    (s : List ℕ) {n : ℕ}
    → IsBytes s
    → unwrap {F = WebSocketError} (bytes_to_u64 s) ≡ ok n
    → n < 2 ^ 64
unfolding bytes_to_u64
u64-lt s hs h = elim (Bool-cases (length s == 8)) [
  | inl e ↦
      let eight : length s ≡ 8 = ground arith in
      let bound : from_be_bytes s < 256 ^ 8 = rw eight at (from_be_bytes-lt s hs) in ground arith
  | inr e ↦ cc (rw e at h)
]

slice-IsBytes :
    (from to : ℕ) (xs r : List ℕ)
    → IsBytes xs
    → slice {F = WebSocketError} from to xs ≡ ok r
    → IsBytes r
slice-IsBytes from to xs r hx h =
    rw (slice-eq-ok WebSocketError from to xs r h).2
      (All-take IsByte (to - from) (drop from xs) (All-drop IsByte from xs hx))

payload_start_bounds :
    (b1 : ℕ) (bs : List ℕ) {len i : ℕ}
    → b1 < 256
    → IsBytes bs
    → payload_start b1 bs ≡ ok (len, i)
    → (len < 2 ^ 64) × (2 ≤ i) × (i ≤ 10)
unfolding payload_start
payload_start_bounds b1 bs {len} {i} hb hs h = elim (Bool-cases (bit_and 0x7f b1 == 126)) [
  | inl e ↦
      let (s, cut, k) = >>=-eq-ok (slice 2 4 bs) _ (rw e at h) in
      let (n, u, q) = >>=-eq-ok (unwrap (bytes_to_u16 s)) _ k in
      ground (arith, u16-lt s (slice-IsBytes 2 4 bs s hs cut) u)
  | inr e ↦ elim (Bool-cases (bit_and 0x7f b1 == 127)) [
    | inl f ↦
        let (s, cut, k) = >>=-eq-ok (slice 2 10 bs) _ (rw (e, f) at h) in
        let (n, u, q) = >>=-eq-ok (unwrap (bytes_to_u64 s)) _ k in
        ground (arith, u64-lt s (slice-IsBytes 2 10 bs s hs cut) u)
    | inr f ↦
        let q : ◌≡◌ {A = WebSocketResult (ℕ × ℕ)} (ok (bit_and 0x7f b1, 2)) (ok (len, i)) =
          rw (e, f) at h in
        ground (arith, bit_and_length b1 hb)
  ]
]

-- A frame that takes `n` of the bytes: it has no mask, the flag and the code of the first byte, and
-- a payload that fits behind the two bytes of the shortest header.
pub record Taken (flag code n : ℕ) (bs : List ℕ) (f : Frame) : Type 0 where
  pub unmasked : (get_header f).mask_key ≡ none
  pub flagged : (get_header f).flag ≡ flag
  pub coded : (get_header f).code ≡ code
  pub there : n ≤ length bs
  pub payload : length (get_data f) + 2 ≤ n

module _ (flag code i len : ℕ) (bs : List ℕ) (fits : len < 2 ^ 64) (low : 2 ≤ i)
    (high : i ≤ 10) where
  read_data-Taken :
      {f : Frame} {n : ℕ} → read_data flag code none i len bs ≡ ok (f, n) → Taken flag code n bs f
  unfolding read_data new_data
  read_data-Taken {f} {n} h =
      let (s, cut, k) = >>=-eq-ok (slice i (add64 len i) bs) _ h in
      let (le, there, e) = slice-eq-ok WebSocketError i (add64 len i) bs s cut in
      let fe : data_frame (new_data flag code s false none []) ≡ f = cc in
      let ne : add64 i len ≡ n = ground arith in
      let size : length s ≡ len =
        omega (arith, ap length e, length-take (add64 len i - i) (drop i bs), length-drop i bs) in
      rw (← fe) (record {
        unmasked = refl;
        flagged = refl;
        coded = refl;
        there = omega arith;
        payload = omega arith;
      })

  length-new_control :
      (status : ℕ) (reason : List ℕ)
      → length (new_control flag code (some status) reason false none []).payload
        ≤ 2 + length reason
  unfolding new_control
  length-new_control status reason = elim (Bool-cases (ltb 125 (length reason + 2))) [
    | inl long ↦ rw long (
        omega (
          arith,
          ltb→lt 125 (length reason + 2) long,
          length-append (to_be_bytes 2 status) (take 122 reason),
          length-to_be_bytes 2 status,
          length-take 122 reason,
        ))
    | inr short ↦
        rw short
          (omega (arith, length-append (to_be_bytes 2 status) reason, length-to_be_bytes 2 status))
  ]

  read_control-Taken :
      {f : Frame} {n : ℕ}
      → add64 len i ≤ length bs
      → IsVec bs
      → read_control flag code none i len bs ≡ ok (f, n)
      → Taken flag code n bs f
  unfolding read_control
  read_control-Taken {f} {n} whole vec h =
      let (s, _, k) = >>=-eq-ok (slice i (i + 2) bs) _ h in
      let (status, _, l) = >>=-eq-ok (unwrap (bytes_to_u16 s)) _ k in
      let (reason, cut, m) = >>=-eq-ok (slice (i + 2) (add64 len 2) bs) _ l in
      let (le, there, e) = slice-eq-ok WebSocketError (i + 2) (add64 len 2) bs reason cut in
      let fe : control_frame (new_control flag code (some status) reason false none []) ≡ f = cc in
      let ne : add64 i len ≡ n = ground arith in
      let size : length reason ≤ len - i = omega (
        arith,
        ap length e,
        length-take (add64 len 2 - (i + 2)) (drop (i + 2) bs),
        length-drop (i + 2) bs,
      ) in
      rw (← fe) (record {
        unmasked = unfold new_control in refl;
        flagged = unfold new_control in refl;
        coded = unfold new_control in refl;
        there = omega arith;
        payload = omega (arith, length-new_control status reason);
      })

  body-Taken :
      {f : Frame} {n : ℕ}
      → IsVec bs
      → body flag code len i bs ≡ ok (some (f, n))
      → Taken flag code n bs f
  body-Taken {f} {n} vec h = elim (Bool-cases (ltb (length bs) (add64 len i))) [
    | inl e ↦ cc (rw e at h)
    | inr e ↦ elim (Bool-cases (is_data code)) [
      | inl d ↦
          let (g, r, q) = >>=-eq-ok (read_data flag code none i len bs) _ (rw (e, d) at h) in
          let ge : g ≡ (f, n) = cc in read_data-Taken (rw ge at r)
      | inr d ↦
          let (g, r, q) = >>=-eq-ok (read_control flag code none i len bs) _ (rw (e, d) at h) in
          let ge : g ≡ (f, n) = cc in read_control-Taken (ground arith) vec (rw ge at r)
    ]
  ]

-- Whatever the bytes are, a frame that is read takes no more of them than there are, two at least,
-- has no mask, and has the flag and the code of the first byte.
pub bytes_to_frame-Taken :
    (bf : Bitflags) (b0 b1 : ℕ) (rest : List ℕ) {f : Frame} {n : ℕ}
    → IsBytes (b0 ∷ b1 ∷ rest)
    → IsVec (b0 ∷ b1 ∷ rest)
    → bytes_to_frame bf (b0 ∷ b1 ∷ rest) ≡ ok (some (f, n))
    → Taken (b0 / 16 * 16) (b0 % 32) n (b0 ∷ b1 ∷ rest) f
unfolding bytes_to_frame
bytes_to_frame-Taken bf b0 b1 rest hb hv h = elim (Bool-cases (is_known (b0 % 32))) [
  | inl known ↦
      let bs : List ℕ = b0 ∷ b1 ∷ rest in
      let (p, start, ending) =
        >>=-eq-ok (payload_start b1 bs) _
          (sym (read_frame_known bf b0 b1 bs hb.0 hb.1.0 known) ∙ h) in
      let (fits, low, high) = payload_start_bounds b1 bs hb.1.0 hb start in
      body-Taken (b0 / 16 * 16) (b0 % 32) p.1 p.0 bs fits low high hv ending
  | inr unknown ↦ cc (h, read_frame_unknown bf b0 b1 (b0 ∷ b1 ∷ rest) hb.0 hb.1.0 unknown)
]
