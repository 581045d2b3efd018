-- ===== src/Sync/Send/Failures.antt =====
-- Where `WSClient::send` (websocket/src/sync/client.rs) does not come back.
use websocket_std.Prelude.{
  ℕ, zero, suc, ◌+◌, ◌*◌, ◌%◌, ◌∙◌, ◌≤◌, List, [], ◌∷◌, ◌++◌, append-nil, append_assoc, Bool-cases,
  inl, inr, ltb, ltb→lt, ◌^◌, ◌<◌, ◌≡◌, refl, sym, subst, ap, ◌≢◌, length, none, some, true, false,
  arith, lt→ltb, lt→leb,
}
use mathlib.Core.Bool.{true≢false}
use websocket_std.Outcome.{panic}
use websocket_std.Std.Utf8.{is_char_boundary}
use websocket_std.Http.Headers.{Text}
use websocket_std.Sync.Deps.{Deps}
use websocket_std.Sync.State.{State, Event, websocket_data}
use websocket_std.Sync.Send.{slice_str, send_chunk, send_loop, send, is_closed}
use websocket_std.Sync.Send.Fragments.{send_chunk_lem, pushed}
use websocket_std.Sync.Send.Cuts.{frame_at}
use websocket_std.WsBasic.Mask.{gen_mask}
use websocket_std.WsBasic.Frame.{data_frame}

boundary_start : (payload : Text) → is_char_boundary payload 0 ≡ true
unfolding is_char_boundary
boundary_start payload = refl

module _ {T : Type 0} (deps : Deps) (payload : Text) where
  send_loop_stuck :
      (fuel : ℕ) (s : State T) → 0 < length payload → send_loop deps fuel 0 0 payload s ≡ none
  unfolding send_loop
  send_loop_stuck zero s some_bytes = refl
  send_loop_stuck (suc fuel) s some_bytes =
      let sent =
        send_chunk_lem deps 0 payload 0 s some_bytes (omega arith) (boundary_start payload)
          (λ _. boundary_start payload) in
      rw (lt→ltb 0 (length payload) some_bytes, sent, sent)
        (send_loop_stuck fuel (pushed deps 0 payload 0 s) some_bytes)

  -- With a message size of 0, which `set_message_size` allows, the loop never ends on a text that is
  -- not empty, whatever the fuel: it queues empty frames for ever. The connection is not closed.
  pub send_zero_size :
      (fuel : ℕ) (s : State T)
      → s.client.message_size ≡ 0
      → 0 < length payload
      → is_closed s.client.connection_status ≡ false
      → send deps fuel payload s ≡ none
  unfolding send
  send_zero_size fuel s size some_bytes live = rw live (
      subst (λ (n : ℕ). send_loop deps fuel n 0 payload s ≡ none) (sym size)
        (send_loop_stuck fuel s some_bytes))

inside-not-start : (payload : Text) (at : ℕ) → is_char_boundary payload at ≡ false → at ≢ 0
inside-not-start payload at inside e =
    true≢false (sym (boundary_start payload) ∙ ap (is_char_boundary payload) (sym e) ∙ inside)

le_mul : (k size : ℕ) → 0 < size → k ≤ k * size
le_mul k zero pos = absurd (omega arith)
le_mul k (suc m) pos = omega arith

module _ {T : Type 0} (deps : Deps) (size : ℕ) (payload : Text)
    (vec : length payload < 2 ^ 63) where
  send_chunk_inside :
      (at : ℕ) (s : State T)
      → at + size < length payload
      → is_char_boundary payload at ≡ true
      → is_char_boundary payload (at + size) ≡ false
      → send_chunk deps size at payload s ≡ (panic, s)
  unfolding send_chunk slice_str
  send_chunk_inside at s short here inside =
      let e : (at + size) % 2 ^ 64 ≡ at + size = omega arith in
      rw (e, lt→leb (length payload) (at + size) short, here, inside)

  -- The loop panics, with some frames queued.
  abbrev Panics : ℕ → ℕ → State T → Type 0
  Panics fuel at s =
      (n : ℕ) × (events : List Event) × (send_loop deps fuel size at payload s
        ≡ some (
          panic,
          record s {
            draws = n;
            client = record s.client { output_events = s.client.output_events ++ events };
          },
        ))

  send_loop_here :
      (fuel at : ℕ) (s : State T)
      → at + size < length payload
      → is_char_boundary payload at ≡ true
      → is_char_boundary payload (at + size) ≡ false
      → Panics (suc fuel) at s
  unfolding send_loop
  send_loop_here fuel at s short here inside =
      let cut = send_chunk_inside at s short here inside in
      (s.draws, [], rw (lt→ltb at (length payload) (omega arith), cut, cut, append-nil))

  send_loop_later :
      (fuel at : ℕ) (s : State T)
      → at + size < length payload
      → is_char_boundary payload at ≡ true
      → is_char_boundary payload (at + size) ≡ true
      → Panics fuel (at + size) (pushed deps size payload at s)
      → Panics (suc fuel) at s
  unfolding send_loop
  send_loop_later fuel at s short here there (n, events, runs) =
      let e : (at + size) % 2 ^ 64 ≡ at + size = omega arith in
      let sent =
        send_chunk_lem deps size payload at s (omega arith) (omega arith) here (λ _. there) in
      let frame : Event =
        websocket_data (data_frame (frame_at size payload at (gen_mask deps.rand s.draws).0)) in
      (
        n,
        frame ∷ events,
        rw (
          lt→ltb at (length payload) (omega arith),
          sent,
          e,
          sent,
          runs,
          append_assoc s.client.output_events (frame ∷ []) events,
        ),
      )

  send_loop-Panics :
      (fuel j d : ℕ) (s : State T)
      → d < fuel
      → (j + suc d) * size < length payload
      → is_char_boundary payload (j * size) ≡ true
      → is_char_boundary payload ((j + suc d) * size) ≡ false
      → Panics fuel (j * size) s
  send_loop-Panics zero j d s more short here inside = absurd (omega arith)
  send_loop-Panics (suc fuel) j zero s more short here inside =
      let e : (j + 1) * size ≡ j * size + size = omega arith in
      send_loop_here fuel (j * size) s (omega arith) here (rw e at inside)
  send_loop-Panics (suc fuel) j (suc d) s more short here inside =
      let next : suc j * size ≡ j * size + size = omega arith in
      let last : (j + suc (suc d)) * size ≡ (suc j + suc d) * size = omega arith in
      let within : j * size + size < length payload = omega arith in
      elim (Bool-cases (is_char_boundary payload (j * size + size))) [
        | inr cut ↦ send_loop_here fuel (j * size) s within here cut
        | inl there ↦ send_loop_later fuel (j * size) s within here there (
            subst (λ at. Panics fuel at (pushed deps size payload (j * size) s)) next
              (send_loop-Panics fuel (suc j) d (pushed deps size payload (j * size) s) (omega arith)
                (subst (λ at. at < length payload) last short) (rw next there)
                (subst (λ at. is_char_boundary payload at ≡ false) last inside)))
      ]

-- If any multiple of the message size falls inside a character of the text, `send` panics, since texts are
-- cut by bytes; the frames of what stands before the cut may be queued by then. The connection is not
-- closed.
pub send_inside_character :
    {T : Type 0} (deps : Deps) (payload : Text) (k : ℕ) (s : State T)
    → length payload < 2 ^ 63
    → k * s.client.message_size < length payload
    → is_char_boundary payload (k * s.client.message_size) ≡ false
    → is_closed s.client.connection_status ≡ false
    → (n : ℕ) × (events : List Event) × (send deps (length payload + 1) payload s
        ≡ some (
          panic,
          record s {
            draws = n;
            client = record s.client { output_events = s.client.output_events ++ events };
          },
        ))
unfolding send
send_inside_character deps payload zero s vec short inside live =
    absurd (inside-not-start payload (0 * s.client.message_size) inside (omega arith))
send_inside_character deps payload (suc d) s vec short inside live =
    elim (Bool-cases (ltb 0 s.client.message_size)) [
      | inl pos ↦
          let p : 0 < s.client.message_size = ltb→lt 0 s.client.message_size pos in
          let some_way : d ≤ d * s.client.message_size = le_mul d s.client.message_size p in
          let size : ℕ = s.client.message_size in
          let start : 0 * size ≡ 0 = omega arith in
          let same : suc d * size ≡ (0 + suc d) * size = omega arith in
          rw live (
            subst (λ at. Panics deps size payload vec (length payload + 1) at s) start
              (send_loop-Panics deps size payload vec (length payload + 1) 0 d s (omega arith)
                (omega arith) (rw start (boundary_start payload))
                (subst (λ at. is_char_boundary payload at ≡ false) same inside)))
      | inr nothing ↦
          let e : suc d * s.client.message_size ≡ 0 = nowhere s.client.message_size nothing in
          absurd (inside-not-start payload (suc d * s.client.message_size) inside e)
    ]
  where
    nowhere : (size : ℕ) → ltb 0 size ≡ false → suc d * size ≡ 0
    nowhere zero h = omega arith
    nowhere (suc m) h = absurd (ground arith)
