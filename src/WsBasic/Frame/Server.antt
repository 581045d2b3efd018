-- ===== src/WsBasic/Frame/Server.antt =====
-- The frames that the client sends (`DataFrame::new` and `Frame::serialize`,
-- websocket/src/ws_basic/frame.rs), read the way RFC 6455, 5.2, tells a server to, but that a length
-- in more bytes than it needs is read as well: the client writes one for a payload of 125 bytes.
use websocket_std.Prelude.{bit_xor, get_or, ◌%◌, refl}
use websocket_std.Prelude.{
  ℕ, ◌+◌, ◌-◌, ◌%◌, ◌^◌, ◌≤◌, ◌<◌, ◌≡◌, List, [], ◌∷◌, ◌++◌, length, take, drop, Option, none, some,
  true, false, if◌then◌else◌, ◌==◌, leb, ltb, bit_or, arith, length-append, append_assoc,
  take_exact, drop_exact,
}
use websocket_std.Prelude.{leb→le, le→leb, ltb→lt, Bool-cases, inl, inr}
use websocket_std.Prelude.Bits.{bit_or_masked}
use websocket_std.Core.Binary.{
  IsBytes, IsVec, from_be_bytes, to_be_bytes, from_be_bytes-to_be_bytes, length-to_be_bytes,
}
use websocket_std.WsBasic.Mask.{Mask, IsMask}
use websocket_std.WsBasic.Header
use websocket_std.WsBasic.Header.{Header, length_bytes}
use websocket_std.WsBasic.Frame.{data_frame, new_data, serialize, mask_loop}
use websocket_std.WsBasic.Frame.Masking.{length-mask_loop, mask_loop_twice}

-- RFC 6455, 5.3: octet `k` of the payload, `^` octet `k mod 4` of the key.
abbrev unmask : Mask → ℕ → List ℕ → List ℕ
unmask key k [] = []
unmask key k (octet ∷ octets) = bit_xor octet (get_or key (k % 4) 0) ∷ unmask key (k + 1) octets

mask_loop-unmask :
    (m : Mask) (i k : ℕ) (bs : List ℕ) → length m ≡ 4 → i ≡ k % 4 → mask_loop m i bs ≡ unmask m k bs
unfolding mask_loop
mask_loop-unmask m i k [] four e = refl
mask_loop-unmask m i k (b ∷ bs) four e =
    let wrapped : (if leb (length m) (i + 1) then 0 else i + 1) ≡ (k + 1) % 4 = ground arith in
    rw (mask_loop-unmask m (if leb (length m) (i + 1) then 0 else i + 1) (k + 1) bs four wrapped, e)

-- A masked frame as a server reads it: the first octet, the payload, and what follows.
pub record Received : Type 0 where
  pub first : ℕ
  pub payload : List ℕ
  pub rest : List ℕ

abbrev read_masked : ℕ → ℕ → List ℕ → Option Received
read_masked first n bytes =
    if leb (4 + n) (length bytes)
    then some (record {
      first = first;
      payload = unmask (take 4 bytes) 0 (take n (drop 4 bytes));
      rest = drop n (drop 4 bytes);
    })
    else none

-- By the seven bits of the length.
abbrev read_length : ℕ → ℕ → List ℕ → Option Received
read_length first len bytes =
    if len == 126
    then read_masked first (from_be_bytes (take 2 bytes)) (drop 2 bytes)
    else if len == 127
    then read_masked first (from_be_bytes (take 8 bytes)) (drop 8 bytes)
    else read_masked first len bytes

abbrev pub server_read : List ℕ → Option Received
server_read [] = none
server_read (b0 ∷ []) = none
server_read (b0 ∷ b1 ∷ bytes) = if leb 128 b1 then read_length b0 (b1 - 128) bytes else none

not_escape : (k n : ℕ) → n < k → (n == k) ≡ false
not_escape k n h = ground arith

module _ (first : ℕ) (m : Mask) (payload rest : List ℕ) (mask : IsMask m)
    (bytes : IsBytes payload) where
  abbrev received : Received
  received = record { first = first; payload = payload; rest = rest }

  masked_body : List ℕ
  masked_body = m ++ (mask_loop m 0 payload ++ rest)

  read_masked_lem : read_masked first (length payload) masked_body ≡ some received
  unfolding masked_body
  read_masked_lem =
      let width : length (mask_loop m 0 payload) ≡ length payload = length-mask_loop m 0 payload in
      let whole : 4 + length payload ≤ length (m ++ (mask_loop m 0 payload ++ rest)) = omega (
        arith,
        width,
        mask.four,
        length-append m (mask_loop m 0 payload ++ rest),
        length-append (mask_loop m 0 payload) rest,
      ) in
      rw (
        le→leb (4 + length payload) (length (m ++ (mask_loop m 0 payload ++ rest))) whole,
        take_exact 4 m (mask_loop m 0 payload ++ rest) mask.four,
        drop_exact 4 m (mask_loop m 0 payload ++ rest) mask.four,
        take_exact (length payload) (mask_loop m 0 payload) rest width,
        drop_exact (length payload) (mask_loop m 0 payload) rest width,
        ← mask_loop-unmask m 0 0 (mask_loop m 0 payload) mask.four refl,
        mask_loop_twice m 0 payload mask.bytes bytes,
      )

  read_long :
      (k : ℕ)
      → length payload < 256 ^ k
      → read_masked first
          (from_be_bytes (take k (to_be_bytes k (length payload) ++ masked_body)))
          (drop k (to_be_bytes k (length payload) ++ masked_body))
        ≡ some received
  read_long k fits =
      let width : length (to_be_bytes k (length payload)) ≡ k =
        length-to_be_bytes k (length payload) in
      rw
        (
          take_exact k (to_be_bytes k (length payload)) masked_body width,
          drop_exact k (to_be_bytes k (length payload)) masked_body width,
          from_be_bytes-to_be_bytes k (length payload) fits,
        )
        read_masked_lem

  server_read-length :
      IsVec payload
      → server_read (first ∷ (length_bytes (some m) (length payload) ++ masked_body))
        ≡ some received
  unfolding length_bytes
  server_read-length v = elim (Bool-cases (ltb (length payload) 125)) [
    | inl short ↦
        let lt : length payload < 125 = ltb→lt (length payload) 125 short in
        let n : length payload % 256 ≡ length payload = omega arith in
        let back : length payload + 128 - 128 ≡ length payload = omega arith in
        rw
          (
            short,
            n,
            bit_or_masked (length payload) (omega arith),
            le→leb 128 (length payload + 128) (omega arith),
            back,
            not_escape 126 (length payload) (omega arith),
            not_escape 127 (length payload) (omega arith),
          )
          read_masked_lem
    | inr long ↦ elim (Bool-cases (leb (length payload) 65535)) [
      | inl fits ↦
          let le : length payload ≤ 65535 = leb→le (length payload) 65535 fits in
          let n : length payload % 2 ^ 16 ≡ length payload = omega arith in
          rw (long, fits, n) (read_long 2 (omega arith))
      | inr over ↦ rw (long, over) (read_long 8 (omega arith))
    ]
  ]

-- A server that follows RFC 6455 reads each data frame that the client makes with a mask back: the
-- first octet with the flag and the opcode, the payload unmasked with the key, and after it the
-- bytes that follow. The key has four bytes, and the payload is one of bytes that a `Vec` can hold.
pub server_read-serialize :
    (flag code : ℕ) (m : Mask) (payload rest : List ℕ)
    → IsMask m
    → IsBytes payload
    → IsVec payload
    → server_read (serialize (data_frame (new_data flag code payload true none m)) ++ rest)
      ≡ some (record { first = bit_or flag code; payload = payload; rest = rest })
unfolding serialize new_data Header.serialize masked_body
server_read-serialize flag code m payload rest mask bytes v =
    let before : List ℕ = length_bytes (some m) (length payload) in
    rw
      (
        append_assoc (before ++ m) (mask_loop m 0 payload) rest,
        append_assoc before m (mask_loop m 0 payload ++ rest),
      )
      (server_read-length (bit_or flag code) m payload rest mask bytes v)
