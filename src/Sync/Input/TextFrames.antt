-- ===== src/Sync/Input/TextFrames.antt =====
-- Data frames in `WSClient::handle_recv_frame` (websocket/src/sync/client.rs): what the callback is
-- told of a message.
use websocket_std.Prelude.{
  ℕ, ◌≡◌, ap, ◌∙◌, List, [], ◌∷◌, ◌++◌, Bool-cases, inl, inr, Option, none, some, true, false, ◌==◌,
  if◌then◌else◌, arith,
}
use websocket_std.Outcome.{ok, err, decoding_from_utf8}
use websocket_std.Std.Utf8.{is_utf8, from_utf8}
use websocket_std.Http.Headers.{Text}
use websocket_std.WsBasic.Header.{fin}
use websocket_std.WsBasic.Frame.{Frame, data_kind, kind, get_data, get_header}
use websocket_std.Sync.Deps.{Deps}
use websocket_std.Sync.State.{State, on_text, React}
use websocket_std.Sync.Exec.{notify_with}
use websocket_std.Sync.Input.{
  handle_recv_frame, recv_by_kind, handle_data_frame, decode_data, deliver, decode,
}

pub decode-utf8 : (bytes : List ℕ) → is_utf8 bytes ≡ true → decode bytes ≡ ok bytes
unfolding decode from_utf8
decode-utf8 bytes h = rw (h, decode, from_utf8)

pub decode-not_utf8 :
    (bytes : List ℕ) → is_utf8 bytes ≡ false → decode bytes ≡ err decoding_from_utf8
unfolding decode from_utf8
decode-not_utf8 bytes h = rw (h, decode, from_utf8)

module _ {T : Type 0} (deps : Deps) (react : React T) (frame : Frame) (s : State T) where
  -- The state in which the payload has been looked at.
  abbrev pub collected : List ℕ → State T
  collected bytes = record s { client = record s.client { recv_data = bytes } }

  recv_data_lem :
      kind frame ≡ data_kind
      → handle_recv_frame deps react frame s
        ≡ decode_data react s.client.callback frame (
            collected (
              if (get_header frame).flag == fin
              then s.client.recv_data
              else s.client.recv_data ++ get_data frame))
  unfolding handle_recv_frame recv_by_kind handle_data_frame
  recv_data_lem k = rw k

  decode_data_lem :
      (pointer : ℕ) {msg : Text}
      → decode (get_data frame) ≡ ok msg
      → decode_data react (some pointer) frame s ≡ deliver react s.client.recv_data msg s
  unfolding decode_data
  decode_data_lem pointer e = rw e

  decode_data-invalid :
      (pointer : ℕ)
      → is_utf8 (get_data frame) ≡ false
      → decode_data react (some pointer) frame s ≡ (err decoding_from_utf8, s)
  unfolding decode_data
  decode_data-invalid pointer utf = rw (decode-not_utf8 (get_data frame) utf)

  deliver_lem :
      (pointer b : ℕ) (bs msg : Text)
      → s.client.callback ≡ some pointer
      → is_utf8 (b ∷ bs) ≡ true
      → let told = react pointer (on_text ((b ∷ bs) ++ msg)) s.client.cb_data s in
        deliver react (b ∷ bs) msg s
        ≡ (ok tt, record told { client = record told.client { recv_data = [] } })
  unfolding deliver
  deliver_lem pointer b bs msg cb utf =
      let heard = ap (λ (c : Option ℕ). notify_with react (on_text ((b ∷ bs) ++ msg)) c s) cb in
      rw (decode-utf8 (b ∷ bs) utf, heard)

module _ {T : Type 0} (deps : Deps) (react : React T) (frame : Frame) (s : State T)
    (k : kind frame ≡ data_kind) where
  -- Without a callback no text is decoded: the payload of a frame is collected if more frames of its
  -- message are to come, and otherwise nothing changes.
  pub handle_recv_frame-no_callback :
      s.client.callback ≡ none
      → handle_recv_frame deps react frame s ≡ (
        ok tt,
        collected deps react frame s (
            if (get_header frame).flag == fin
            then s.client.recv_data
            else s.client.recv_data ++ get_data frame),
      )
  unfolding decode_data
  handle_recv_frame-no_callback cb =
      recv_data_lem deps react frame s k
      ∙ ap
          (λ (c : Option ℕ). decode_data react c frame (
            collected deps react frame s (
              if (get_header frame).flag == fin
              then s.client.recv_data
              else s.client.recv_data ++ get_data frame)))
          cb

  module _ (pointer : ℕ) (cb : s.client.callback ≡ some pointer) where
    last_lem :
        (get_header frame).flag ≡ fin
        → handle_recv_frame deps react frame s ≡ decode_data react (some pointer) frame s
    last_lem flag =
        recv_data_lem deps react frame s k
        ∙ ap
            (λ (bytes : List ℕ).
              decode_data react s.client.callback frame (collected deps react frame s bytes))
            (ground arith)
        ∙ ap (λ (c : Option ℕ). decode_data react c frame s) cb

    -- With a callback and nothing collected, the only frame of a message (a data frame with FIN) is
    -- handed to the callback as it is, if its payload is valid UTF-8; if not, the call is an error
    -- and nothing changes.
    pub handle_recv_frame-fin :
        (get_header frame).flag ≡ fin
        → s.client.recv_data ≡ []
        → handle_recv_frame deps react frame s ≡ (
            if is_utf8 (get_data frame)
            then (ok tt, react pointer (on_text (get_data frame)) s.client.cb_data s)
            else (err decoding_from_utf8, s))
    unfolding deliver
    handle_recv_frame-fin flag empty = elim (Bool-cases (is_utf8 (get_data frame))) [
      | inl utf ↦ rw utf (
          last_lem flag
          ∙ decode_data_lem deps react frame s pointer (decode-utf8 (get_data frame) utf)
          ∙ ap (λ (bs : List ℕ). deliver react bs (get_data frame) s) empty
          ∙ ap (λ (c : Option ℕ). notify_with react (on_text (get_data frame)) c s) cb)
      | inr not_utf ↦
          rw not_utf (last_lem flag ∙ decode_data-invalid deps react frame s pointer not_utf)
    ]

    -- With a callback and nothing collected, a data frame whose flag is not FIN, so that it is not
    -- the last of its message, is handed to the callback at once, and twice over: the text is its
    -- payload followed by its payload. Nothing is kept for the frames to come. The payload is valid
    -- UTF-8 and not empty.
    pub handle_recv_frame-fragment :
        (b : ℕ) (bs : List ℕ)
        → ((get_header frame).flag == fin) ≡ false
        → s.client.recv_data ≡ []
        → get_data frame ≡ b ∷ bs
        → is_utf8 (b ∷ bs) ≡ true
        → let here = collected deps react frame s (b ∷ bs) in
          let told = react pointer (on_text ((b ∷ bs) ++ (b ∷ bs))) s.client.cb_data here in
          handle_recv_frame deps react frame s
          ≡ (ok tt, record told { client = record told.client { recv_data = [] } })
    handle_recv_frame-fragment b bs flag empty payload utf =
        let here : State T = collected deps react frame s (b ∷ bs) in
        let gathered : (if (get_header frame).flag == fin
              then s.client.recv_data
              else s.client.recv_data ++ get_data frame)
            ≡ b ∷ bs =
          rw flag (ap (λ (r : List ℕ). r ++ get_data frame) empty ∙ payload) in
        recv_data_lem deps react frame s k
        ∙ ap
            (λ (bytes : List ℕ).
              decode_data react s.client.callback frame (collected deps react frame s bytes))
            gathered
        ∙ ap (λ (c : Option ℕ). decode_data react c frame here) cb
        ∙ decode_data_lem deps react frame here pointer
            (ap decode payload ∙ decode-utf8 (b ∷ bs) utf)
        ∙ deliver_lem deps react frame here pointer b bs (b ∷ bs) cb utf
