-- ===== src/Sync/Send/Cuts.antt =====
-- Where `WSClient::send` (websocket/src/sync/client.rs) cuts a text, and the frame of each part.
use websocket_std.Prelude.{
  ℕ, zero, suc, ◌+◌, ◌-◌, ◌*◌, ◌<◌, ◌≡◌, refl, sym, ap, ◌∙◌, ◌≢◌, List, [], ◌∷◌, ◌++◌, length, none,
  Bool, true, false, leb, ◌==◌, if◌then◌else◌, arith, take, drop, take-append-drop, length-take,
  length-drop, drop-add, take_all, drop_all, leb→le, Bool-cases, inl, inr,
}
use websocket_std.Outcome.{WebSocketError, ok, slice-ok}
use websocket_std.Std.Utf8.{is_char_boundary}
use websocket_std.Http.Headers.{Text}
use websocket_std.WsBasic.Mask.{Mask}
use websocket_std.WsBasic.Header.{fin, noflag, text, continuation}
use websocket_std.WsBasic.Frame.{DataFrame, new_data}
use websocket_std.Sync.Send.{slice_str}

abbrev pub is_empty : List ℕ → Bool
is_empty [] = true
is_empty (b ∷ bs) = false

is_empty-drop : (n : ℕ) (xs : List ℕ) → n < length xs → is_empty (drop n xs) ≡ false
is_empty-drop zero [] h = absurd (omega arith)
is_empty-drop zero (x ∷ xs) h = refl
is_empty-drop (suc n) [] h = absurd (omega arith)
is_empty-drop (suc n) (x ∷ xs) h = is_empty-drop n xs (omega arith)

-- Every cut falls between two characters.
abbrev pub Cuts : ℕ → Text → Type 0
Cuts size payload = (k : ℕ) → k * size < length payload → is_char_boundary payload (k * size) ≡ true

boundary_end : (payload : Text) → is_char_boundary payload (length payload) ≡ true
unfolding is_char_boundary
boundary_end payload = ground arith

-- The chunk that starts at `at`, and its frame.
abbrev pub chunk : ℕ → Text → ℕ → Text
chunk size payload at = take size (drop at payload)

abbrev pub frame_at : ℕ → Text → ℕ → Mask → DataFrame
frame_at size payload at mask =
    new_data (if leb (length payload) (at + size) then fin else noflag)
      (if at == 0 then text else continuation) (chunk size payload at) true none mask

module _ (size : ℕ) (payload : Text) (at : ℕ) (lt : at < length payload) where
  pub slice_chunk :
      is_char_boundary payload at ≡ true
      → (at + size < length payload → is_char_boundary payload (at + size) ≡ true)
      → slice_str at
          (if leb (length payload) (at + size) then length payload else at + size)
          payload
        ≡ ok (chunk size payload at)
  unfolding slice_str
  slice_chunk here there = elim (Bool-cases (leb (length payload) (at + size))) [
    | inl last ↦
        let all : take (length payload - at) (drop at payload) ≡ chunk size payload at =
          take_all (length payload - at) (drop at payload) (omega (arith, length-drop at payload))
          ∙ sym (
              take_all size (drop at payload) (
                omega (arith, length-drop at payload, leb→le (length payload) (at + size) last))) in
        rw (last, here, boundary_end payload)
          (slice-ok WebSocketError at (length payload) payload (omega arith) (omega arith)
            ∙ ap ok all)
    | inr more ↦
        let within : at + size < length payload = ground arith in
        let e : at + size - at ≡ size = omega arith in
        rw (more, here, there within)
          (slice-ok WebSocketError at (at + size) payload (omega arith) (omega arith) ∙ rw e)
  ]

  pub cut_here : drop at payload ≡ chunk size payload at ++ drop (at + size) payload
  cut_here =
      sym (take-append-drop size (drop at payload))
      ∙ ap (◌++◌ (chunk size payload at)) (drop-add at size payload)

  pub chunk_some : 0 < size → chunk size payload at ≢ []
  chunk_some pos e =
      absurd
        (omega (arith, ap length e, length-take size (drop at payload), length-drop at payload))

  pub flag_lem :
      (if leb (length payload) (at + size) then fin else noflag)
      ≡ (if is_empty (drop (at + size) payload) then fin else noflag)
  flag_lem = elim (Bool-cases (leb (length payload) (at + size))) [
    | inl last ↦ rw (last, drop_all (at + size) payload (leb→le (length payload) (at + size) last))
    | inr more ↦ rw (more, is_empty-drop (at + size) payload (ground arith))
  ]
