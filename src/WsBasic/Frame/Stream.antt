-- ===== src/WsBasic/Frame/Stream.antt =====
-- `bytes_to_frame` (websocket/src/ws_basic/frame.rs) on a stream that arrives in pieces.
use websocket_std.Prelude.{
  ℕ, ◌+◌, ◌↔◌, ◌*◌, ◌/◌, ◌%◌, ◌<◌, ◌≡◌, sym, ◌∙◌, List, [], ◌∷◌, ◌++◌, length, none, some, false,
  arith, inl, inr, ◌==◌, ltb, bit_and, length-append, Bool-cases,
}
use websocket_std.Outcome.{
  ok, err, invalid_frame, slice, slice-bind-append, NotErr, NotErr-ne, NotErr-bind, NotErr-slice,
  NotErr-unwrap, bind_mono, >>=-eq-ok, unwrap,
}
use websocket_std.Core.Binary.{IsBytes, bytes_to_u16, bytes_to_u64}
use websocket_std.WsBasic.Bitflags.{Bitflags}
use websocket_std.WsBasic.Header.Codes.{is_known}
use websocket_std.WsBasic.Frame.Parse.{body, read_frame_known, read_frame_unknown}
use websocket_std.WsBasic.Frame.{
  Frame, payload_start, read_data, read_control, read_frame, bytes_to_frame, is_data, add64,
}

payload_start-append :
    (b1 : ℕ) (xs ys : List ℕ) {p : ℕ × ℕ}
    → payload_start b1 xs ≡ ok p
    → payload_start b1 (xs ++ ys) ≡ ok p
unfolding payload_start
payload_start-append b1 xs ys h = elim (Bool-cases (bit_and 0x7f b1 == 126)) [
  | inl e ↦ rw e (slice-bind-append 2 4 xs ys _ (rw e at h))
  | inr e ↦ elim (Bool-cases (bit_and 0x7f b1 == 127)) [
    | inl f ↦ rw (e, f) (slice-bind-append 2 10 xs ys _ (rw (e, f) at h))
    | inr f ↦ rw (e, f) (rw (e, f) at h)
  ]
]

payload_start-NotErr : (b1 : ℕ) (bs : List ℕ) → NotErr (payload_start b1 bs)
unfolding payload_start
payload_start-NotErr b1 bs = elim (Bool-cases (bit_and 0x7f b1 == 126)) [
  | inl e ↦ rw e (
      NotErr-bind _ _ (NotErr-slice _ 2 4 bs)
        λ s. NotErr-bind _ _ (NotErr-unwrap _ (bytes_to_u16 s)) (λ n. tt))
  | inr e ↦ elim (Bool-cases (bit_and 0x7f b1 == 127)) [
    | inl f ↦
        rw (e, f)
          (NotErr-bind _ _ (NotErr-slice _ 2 10 bs)
            λ s. NotErr-bind _ _ (NotErr-unwrap _ (bytes_to_u64 s)) (λ n. tt))
    | inr f ↦ rw (e, f) tt
  ]
]

body-NotErr : (flag code i len : ℕ) (bs : List ℕ) → NotErr (body flag code len i bs)
unfolding read_data read_control
body-NotErr flag code i len bs = elim (Bool-cases (ltb (length bs) (add64 len i))) [
  | inl e ↦ rw e tt
  | inr e ↦ elim (Bool-cases (is_data code)) [
    | inl d ↦
        rw (e, d)
          (NotErr-bind _ _ (NotErr-bind _ _ (NotErr-slice _ i (add64 len i) bs) (λ s. tt))
            (λ f. tt))
    | inr d ↦
        rw (e, d)
          (NotErr-bind _ _
            (NotErr-bind _ _ (NotErr-slice _ i (i + 2) bs) λ s.
              NotErr-bind _ _ (NotErr-unwrap _ (bytes_to_u16 s))
                λ n. NotErr-bind _ _ (NotErr-slice _ (i + 2) (add64 len 2) bs) (λ r. tt))
            (λ f. tt))
  ]
]

module _ (flag code i len : ℕ) (xs ys : List ℕ) where
  read_data-append :
      {f : Frame × ℕ}
      → read_data flag code none i len xs ≡ ok f
      → read_data flag code none i len (xs ++ ys) ≡ ok f
  unfolding read_data
  read_data-append h = slice-bind-append i (add64 len i) xs ys _ h

  read_control-append :
      {f : Frame × ℕ}
      → read_control flag code none i len xs ≡ ok f
      → read_control flag code none i len (xs ++ ys) ≡ ok f
  unfolding read_control
  read_control-append h =
      bind_mono (slice i (i + 2) (xs ++ ys)) _ _
        (λ s.
          bind_mono (unwrap (bytes_to_u16 s)) _ _
            λ status. slice-bind-append (i + 2) (add64 len 2) xs ys _)
        (slice-bind-append i (i + 2) xs ys _ h)

  body-append :
      {f : Frame × ℕ}
      → body flag code len i xs ≡ ok (some f)
      → body flag code len i (xs ++ ys) ≡ ok (some f)
  body-append h = elim (Bool-cases (ltb (length xs) (add64 len i))) [
    | inl e ↦ cc (rw e at h)
    | inr e ↦
        let there : ltb (length (xs ++ ys)) (add64 len i) ≡ false =
          ground (arith, length-append xs ys) in
        rw there (elim (Bool-cases (is_data code)) [
          | inl d ↦
              let (g, r, q) = >>=-eq-ok (read_data flag code none i len xs) _ (rw (e, d) at h) in
              rw (d, read_data-append r) q
          | inr d ↦
              let (g, r, q) = >>=-eq-ok (read_control flag code none i len xs) _ (rw (e, d) at h) in
              rw (d, read_control-append r) q
        ])
  ]

module _ (bf : Bitflags) where
  -- Once a frame is there, bytes that arrive later do not change it: it is read as the same frame
  -- of the same length.
  pub bytes_to_frame-append :
      (bs more : List ℕ) {f : Frame} {n : ℕ}
      → IsBytes bs
      → bytes_to_frame bf bs ≡ ok (some (f, n))
      → bytes_to_frame bf (bs ++ more) ≡ ok (some (f, n))
  unfolding bytes_to_frame
  bytes_to_frame-append [] more hb h = cc
  bytes_to_frame-append (b0 ∷ []) more hb h = cc
  bytes_to_frame-append (b0 ∷ b1 ∷ rest) more hb h = elim (Bool-cases (is_known (b0 % 32))) [
    | inl known ↦
        let bs : List ℕ = b0 ∷ b1 ∷ rest in
        let (p, start, ending) =
          >>=-eq-ok (payload_start b1 bs) _
            (sym (read_frame_known bf b0 b1 bs hb.0 hb.1.0 known) ∙ h) in
        read_frame_known bf b0 b1 (bs ++ more) hb.0 hb.1.0 known
        ∙ rw (payload_start-append b1 bs more start)
            (body-append (b0 / 16 * 16) (b0 % 32) p.1 p.0 bs more ending)
    | inr unknown ↦ cc (h, read_frame_unknown bf b0 b1 (b0 ∷ b1 ∷ rest) hb.0 hb.1.0 unknown)
  ]

  -- Bytes that no frame starts with are refused, however many have come, and only those: the first
  -- byte decides, by its low five bits.
  pub bytes_to_frame-invalid :
      (b0 b1 : ℕ) (rest : List ℕ)
      → b0 < 256
      → b1 < 256
      → (bytes_to_frame bf (b0 ∷ b1 ∷ rest) ≡ err invalid_frame) ↔ (is_known (b0 % 32) ≡ false)
  unfolding bytes_to_frame
  bytes_to_frame-invalid b0 b1 rest h0 h1 =
      (only_if, read_frame_unknown bf b0 b1 (b0 ∷ b1 ∷ rest) h0 h1)
    where
      only_if :
          read_frame bf b0 b1 (b0 ∷ b1 ∷ rest) ≡ err invalid_frame → is_known (b0 % 32) ≡ false
      only_if h = elim (Bool-cases (is_known (b0 % 32))) [
        | inl known ↦ absurd (
            NotErr-ne _
              (NotErr-bind (payload_start b1 (b0 ∷ b1 ∷ rest)) _
                (payload_start-NotErr b1 (b0 ∷ b1 ∷ rest))
                λ p. body-NotErr (b0 / 16 * 16) (b0 % 32) p.1 p.0 (b0 ∷ b1 ∷ rest))
              (sym (read_frame_known bf b0 b1 (b0 ∷ b1 ∷ rest) h0 h1 known) ∙ h))
        | inr unknown ↦ unknown
      ]
