-- ===== src/WsBasic/Frame/RoundTrip.antt =====
-- What `bytes_to_frame` reads back of the data frames that `Frame::serialize` wrote
-- (websocket/src/ws_basic/frame.rs).
use websocket_std.Prelude.{
  ℕ, ◌+◌, ◌-◌, ◌%◌, ◌^◌, ◌≤◌, ◌≡◌, refl, sym, ap, ◌∙◌, List, [], ◌∷◌, ◌++◌, length, none, some,
  true, false, arith, length-append, append-nil, append_assoc, take, drop, take-append-drop, bit_or,
  length-take,
}
use websocket_std.Outcome.{ok}
use websocket_std.Core.Binary.{IsVec, length-to_be_bytes}
use websocket_std.WsBasic.Bitflags.{Bitflags}
use websocket_std.WsBasic.Mask.{Mask}
use websocket_std.WsBasic.Header
use websocket_std.WsBasic.Header.{Header, length_bytes}
use websocket_std.WsBasic.Frame.Masking.{length-mask_loop}
use websocket_std.WsBasic.Frame.Written.{IsFlag, IsHeader, prefix_len, bytes_to_frame-header}
use websocket_std.WsBasic.Frame.Parse.{body}
use websocket_std.WsBasic.Frame.Bodies.{body_data}
use websocket_std.WsBasic.Frame.{
  data_frame, new_data, serialize, mask_loop, bytes_to_frame, is_data,
}

pub length-header : (h : Header) → h.mask_key ≡ none → length (Header.serialize h) ≡ prefix_len h
unfolding Header.serialize
length-header h e = rw (e, append-nil) (omega arith)

pub prefix_len-le : (h : Header) → prefix_len h ≤ 10
unfolding length_bytes
prefix_len-le h =
    ground
      (arith, length-to_be_bytes 2 (h.payload_len % 2 ^ 16), length-to_be_bytes 8 h.payload_len)

regroup :
    (n : ℕ) (before m masked rest : List ℕ)
    → (before ++ m) ++ (masked ++ rest)
      ≡ before ++ (take n (m ++ masked) ++ (drop n (m ++ masked) ++ rest))
regroup n before m masked rest = rw (
  ← append_assoc (take n (m ++ masked)) (drop n (m ++ masked)) rest,
  take-append-drop n (m ++ masked),
  append_assoc before m (masked ++ rest),
  append_assoc m masked rest,
)

module _ (bf : Bitflags) (flag code : ℕ) (fl : IsFlag flag) where
  -- `bytes_to_frame` reads a text, binary or continuation frame that was serialized without a mask
  -- back as it was, at every length that a `Vec` can have, takes exactly its bytes, and leaves
  -- whatever follows, if the flags are a union of FIN, RSV1 and RSV2.
  pub bytes_to_frame-serialize_data :
      (payload rest : List ℕ)
      → is_data code ≡ true
      → IsVec payload
      → let f = data_frame (new_data flag code payload false none []) in
        bytes_to_frame bf (serialize f ++ rest) ≡ ok (some (f, length (serialize f)))
  unfolding serialize new_data
  bytes_to_frame-serialize_data payload rest d v =
      let h : Header = (new_data flag code payload false none []).header in
      let hv : IsHeader h = record {
        flag = fl;
        code = ground arith;
        known = ground arith;
        fits = omega arith;
      } in
      let size : length (Header.serialize h) ≡ prefix_len h = length-header h refl in
      rw (append_assoc (Header.serialize h) payload rest) (
        bytes_to_frame-header bf h (payload ++ rest) hv
        ∙ body_data flag code (prefix_len h) (length payload) (Header.serialize h) rest size
            (omega (arith, prefix_len-le h)) payload d refl v
        ∙ ap (λ (n : ℕ). ok (some (data_frame (new_data flag code payload false none []), n)))
            (sym (
              length-append (Header.serialize h) payload
              ∙ ap (λ (n : ℕ). n + length payload) size)))

  -- A masked frame is read as an unmasked one: the mask bit is never seen. The payload is the mask
  -- key and then the masked bytes, cut at the frame's length, and the four bytes cut off are left
  -- in front of what follows.
  pub bytes_to_frame-serialize_masked :
      (m : Mask) (payload rest : List ℕ)
      → is_data code ≡ true
      → length m ≡ 4
      → IsVec payload
      → let f = data_frame (new_data flag code payload true (some m) []) in
        let seen = take (length payload) (m ++ mask_loop m 0 payload) in
        bytes_to_frame bf (serialize f ++ rest)
        ≡ ok (some (data_frame (new_data flag code seen false none []), length (serialize f) - 4))
  unfolding serialize new_data Header.serialize
  bytes_to_frame-serialize_masked m payload rest d four v =
      let n : ℕ = length payload in
      let h : Header = (new_data flag code payload true (some m) []).header in
      let hv : IsHeader h = record {
        flag = fl;
        code = ground arith;
        known = ground arith;
        fits = omega arith;
      } in
      let masked : List ℕ = mask_loop m 0 payload in
      let before : List ℕ = bit_or flag code ∷ length_bytes (some m) n in
      let width : length masked ≡ n = length-mask_loop m 0 payload in
      let whole : length (m ++ masked) ≡ 4 + n = omega (arith, length-append m masked) in
      let cut : length (take n (m ++ masked)) ≡ n = omega (arith, length-take n (m ++ masked)) in
      let size : length ((before ++ m) ++ masked) - 4 ≡ prefix_len h + n =
        omega (arith, length-append (before ++ m) masked, length-append before m) in
      rw (append_assoc (before ++ m) masked rest) (
        bytes_to_frame-header bf h (masked ++ rest) hv
        ∙ ap (body flag code n (prefix_len h)) (regroup n before m masked rest)
        ∙ body_data flag code (prefix_len h) n before (drop n (m ++ masked) ++ rest) (omega arith)
            (omega (arith, prefix_len-le h)) (take n (m ++ masked)) d cut v
        ∙ rw size)
