-- ===== src/Sync/Send/Fragments.antt =====
-- What `WSClient::send` (websocket/src/sync/client.rs) queues.
use websocket_std.Prelude.{
  ℕ, zero, suc, ◌+◌, ◌-◌, ◌*◌, ◌%◌, ◌^◌, ◌≤◌, ◌<◌, ◌≡◌, refl, subst, ◌∙◌, ◌≢◌, List, [], ◌∷◌, ◌++◌,
  length, some, Bool, true, false, ltb, ◌==◌, if◌then◌else◌, arith, drop, length-take, append_assoc,
  append-nil, drop_all, ltb→lt, lt→ltb, le→ltb, Bool-cases, inl, inr,
}
use websocket_std.Outcome.{ok}
use websocket_std.Std.Utf8.{is_char_boundary}
use websocket_std.Http.Headers.{Text}
use websocket_std.Core.Binary.{IsVec}
use websocket_std.WsBasic.Mask.{Mask, IsMask, gen_mask, gen_mask-IsMask}
use websocket_std.WsBasic.Header.{fin, noflag, text, continuation}
use websocket_std.WsBasic.Frame.{DataFrame, data_frame, new_data, get_mask}
use websocket_std.Sync.Deps.{Deps}
use websocket_std.Sync.State.{State, Event, websocket_data}
use websocket_std.Sync.Send.{send_chunk, send_loop, send, is_closed}
use websocket_std.Sync.Send.Cuts.{
  is_empty, Cuts, frame_at, slice_chunk, cut_here, chunk_some, flag_lem,
}

-- The events are the frames of one message: their payloads joined are the text, none is empty or
-- longer than `size`, the first is a text frame and the others continue it, the last and only the
-- last is marked FIN, each has a mask key of its own and the length of its payload.
abbrev pub Fragments : ℕ → Bool → Text → List Event → Type 0
Fragments size first payload [] = payload ≡ []
Fragments size first payload (event ∷ events) =
    (d : DataFrame) × (rest : Text) × (event ≡ websocket_data (data_frame d))
    × (payload ≡ d.payload ++ rest)
    × (d.payload ≢ [])
    × (length d.payload ≤ size)
    × (d.header.code ≡ (if first then text else continuation))
    × (d.header.flag ≡ (if is_empty rest then fin else noflag))
    × ((m : Mask) × (d.header.mask_key ≡ some m) × IsMask m)
    × (d.header.payload_len ≡ length d.payload)
    × Fragments size false rest events

module _ {T : Type 0} (deps : Deps) (size : ℕ) (payload : Text) where
  abbrev pub pushed : ℕ → State T → State T
  pushed at s = record s {
    draws = (gen_mask deps.rand s.draws).1;
    client = record s.client {
      output_events =
          s.client.output_events
          ++ websocket_data (data_frame (frame_at size payload at (gen_mask deps.rand s.draws).0))
            ∷ [];
    };
  }

  pub send_chunk_lem :
      (at : ℕ) (s : State T)
      → at < length payload
      → at + size < 2 ^ 64
      → is_char_boundary payload at ≡ true
      → (at + size < length payload → is_char_boundary payload (at + size) ≡ true)
      → send_chunk deps size at payload s ≡ (ok tt, pushed at s)
  unfolding send_chunk new_data gen_mask
  send_chunk_lem at s lt fits here there =
      let e : (at + size) % 2 ^ 64 ≡ at + size = omega arith in
      rw (e, slice_chunk size payload at lt here there)

  -- What the loop queues from `at` on, when it is at a multiple of `size`.
  abbrev Queues : ℕ → ℕ → State T → Type 0
  Queues fuel at s =
      (n : ℕ) × (events : List Event) × (send_loop deps fuel size at payload s
        ≡ some (
          ok tt,
          record s {
            draws = n;
            client = record s.client { output_events = s.client.output_events ++ events };
          },
        ))
      × Fragments size (at == 0) (drop at payload) events

module _ (size : ℕ) (payload : Text) (vec : IsVec payload) (pos : 0 < size) (word : size < 2 ^ 64)
    (cuts : Cuts size payload) where
  no_wrap : (k : ℕ) → k * size < length payload → k * size + size < 2 ^ 64
  no_wrap zero h = omega arith
  no_wrap (suc k) h = omega arith

  next_cut :
      (k : ℕ) → k * size + size < length payload → is_char_boundary payload (k * size + size) ≡ true
  next_cut k h =
      let e : suc k * size ≡ k * size + size = omega arith in rw e at (cuts (suc k) (omega arith))

  module _ {T : Type 0} (deps : Deps) where
    send_loop_step :
        (fuel k : ℕ) (s : State T)
        → k * size < length payload
        → send_loop deps (suc fuel) size (k * size) payload s
          ≡ send_loop deps fuel size
              (k * size + size)
              payload
              (pushed deps size payload (k * size) s)
    unfolding send_loop
    send_loop_step fuel k s lt =
        let e : (k * size + size) % 2 ^ 64 ≡ k * size + size = omega (arith, no_wrap k lt) in
        let chunk_sent =
          send_chunk_lem deps size payload (k * size) s lt (no_wrap k lt) (cuts k lt)
            (next_cut k) in
        rw (lt→ltb (k * size) (length payload) lt, chunk_sent, e, chunk_sent)

    send_loop_done :
        (fuel at : ℕ) (s : State T)
        → length payload ≤ at
        → send_loop deps (suc fuel) size at payload s ≡ some (ok tt, s)
    unfolding send_loop
    send_loop_done fuel at s h = rw (le→ltb at (length payload) h)

    Queues-step :
        (fuel k : ℕ) (s : State T)
        → k * size < length payload
        → Queues deps size payload fuel (k * size + size) (pushed deps size payload (k * size) s)
        → Queues deps size payload (suc fuel) (k * size) s
    unfolding new_data
    Queues-step fuel k s lt (n, events, runs, shape) =
        let at : ℕ = k * size in
        let d : DataFrame = frame_at size payload at (gen_mask deps.rand s.draws).0 in
        let later : (at + size == 0) ≡ false = ground arith in
        (
          n,
          websocket_data (data_frame d) ∷ events,
          send_loop_step fuel k s lt
              ∙ runs
              ∙ rw
                  (append_assoc s.client.output_events (websocket_data (data_frame d) ∷ []) events),
          (
            d,
            drop (at + size) payload,
            refl,
            cut_here size payload at lt,
            chunk_some size payload at lt pos,
            omega (arith, length-take size (drop at payload)),
            refl,
            flag_lem size payload at lt,
            (
              (gen_mask deps.rand s.draws).0,
              (unfold get_mask in refl),
              gen_mask-IsMask deps.rand s.draws,
            ),
            refl,
            rw later at shape,
          ),
        )

    send_loop-Queues :
        (fuel k : ℕ) (s : State T)
        → length payload - k * size < fuel
        → Queues deps size payload fuel (k * size) s
    send_loop-Queues zero k s h = absurd (omega arith)
    send_loop-Queues (suc fuel) k s h = elim (Bool-cases (ltb (k * size) (length payload))) [
      | inl more ↦
          let lt : k * size < length payload = ltb→lt (k * size) (length payload) more in
          let s1 : State T = pushed deps size payload (k * size) s in
          let next : suc k * size ≡ k * size + size = omega arith in
          Queues-step fuel k s lt (
            subst (λ (at : ℕ). Queues deps size payload fuel at s1) next
              (send_loop-Queues fuel (suc k) s1 (omega arith)))
      | inr done ↦
          let end : length payload ≤ k * size = ground arith in
          (
            s.draws,
            [],
            send_loop_done fuel (k * size) s end ∙ rw append-nil,
            drop_all (k * size) payload end,
          )
    ]

-- A text whose cuts at the multiples of the message size fall between characters is queued, behind
-- all that is queued already, as the frames of one message; the loop ends within one round more
-- than the text has bytes, and changes nothing but the queue and the random numbers. The connection
-- is not closed, and the message size is positive.
pub send-Fragments :
    {T : Type 0} (deps : Deps) (payload : Text) (s : State T)
    → IsVec payload
    → 0 < s.client.message_size
    → s.client.message_size < 2 ^ 64
    → Cuts s.client.message_size payload
    → is_closed s.client.connection_status ≡ false
    → (n : ℕ) × (events : List Event) × (send deps (length payload + 1) payload s
        ≡ some (
          ok tt,
          record s {
            draws = n;
            client = record s.client { output_events = s.client.output_events ++ events };
          },
        ))
      × Fragments s.client.message_size true payload events
unfolding send
send-Fragments deps payload s vec pos word cuts live =
    let size : ℕ = s.client.message_size in
    let zero_at : 0 * size ≡ 0 = omega arith in
    rw live (
      subst (λ (at : ℕ). Queues deps size payload (length payload + 1) at s) zero_at
        (send_loop-Queues size payload vec pos word cuts deps (length payload + 1) 0 s
          (omega arith)))
