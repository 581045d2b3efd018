-- ===== src/WsBasic/Frame/Written.antt =====
-- How `bytes_to_frame` (websocket/src/ws_basic/frame.rs) starts on bytes that begin with a
-- serialized header.
use websocket_std.Prelude.{
  ℕ, suc, ◌+◌, ◌*◌, ◌/◌, ◌%◌, ◌^◌, ◌<◌, ◌≡◌, ◌∙◌, List, ◌∷◌, ◌++◌, length, true, bit_or, arith,
  append_assoc,
}
use websocket_std.Prelude.Bits.{bit_or_flag}
use websocket_std.WsBasic.Bitflags.{Bitflags}
use websocket_std.WsBasic.Header
use websocket_std.WsBasic.Header.{Header, length_bytes, mask_bytes}
use websocket_std.WsBasic.Header.Codes.{is_known}
use websocket_std.WsBasic.Frame.Parse.{body, read_frame_known, length_bytes-Reads}
use websocket_std.WsBasic.Frame.{bytes_to_frame}

-- `FIN`, `RSV1` and `RSV2` in any union.
abbrev pub IsFlag : ℕ → Type 0
IsFlag flag = (flag < 256) × (flag % 32 ≡ 0)

pub record IsHeader (h : Header) : Type 0 where
  pub flag : IsFlag h.flag
  pub code : h.code < 16
  pub known : is_known h.code ≡ true
  pub fits : h.payload_len < 2 ^ 64

-- The length of the header without the mask key.
abbrev pub prefix_len : Header → ℕ
prefix_len h = 1 + length (length_bytes h.mask_key h.payload_len)

first_byte : (flag code : ℕ) → IsFlag flag → code < 16 → bit_or flag code ≡ flag + code
first_byte flag code f c =
    let e : flag / 32 * 32 ≡ flag = omega arith in
    rw e at (bit_or_flag (flag / 32) code (omega arith) (omega arith))

module _ (bf : Bitflags) where
  pub bytes_to_frame-header :
      (h : Header) (rest : List ℕ)
      → IsHeader h
      → bytes_to_frame bf (Header.serialize h ++ rest)
        ≡ body h.flag h.code h.payload_len (prefix_len h) (Header.serialize h ++ rest)
  unfolding bytes_to_frame Header.serialize
  bytes_to_frame-header h rest v =
      let b0 : ℕ = bit_or h.flag h.code in
      let e0 : b0 ≡ h.flag + h.code = first_byte h.flag h.code v.flag v.code in
      let flags : b0 / 16 * 16 ≡ h.flag = omega arith in
      let code : b0 % 32 ≡ h.code = omega arith in
      let (b1, ext, e, lt, le, r) =
        length_bytes-Reads b0 h.mask_key h.payload_len (mask_bytes h.mask_key ++ rest) v.fits in
      let bytes : List ℕ = b0 ∷ b1 ∷ (ext ++ (mask_bytes h.mask_key ++ rest)) in
      let start : 2 + length ext ≡ 1 + suc (length ext) = omega arith in
      rw (e, append_assoc ext (mask_bytes h.mask_key) rest)
        (read_frame_known bf b0 b1 bytes (omega arith) lt (rw code v.known)
          ∙ rw (r, flags, code, start))
