-- ===== src/Sync/Send.antt =====
-- `WSClient::send` (websocket/src/sync/client.rs): a text in frames of at most `message_size` bytes.
pub mod Cuts
pub mod Fragments
pub mod Failures
use websocket_std.Prelude.{
  ℕ, zero, suc, ◌+◌, ◌-◌, ◌%◌, ◌^◌, List, [], ◌∷◌, ◌++◌, length, Option, none, some, Bool, true,
  false, ◌&&◌, ltb, leb, ◌==◌, if◌then◌else◌,
}
use websocket_std.Outcome.{WebSocketResult, WebSocketError, ok, err, panic, slice}
use websocket_std.Std.Utf8.{is_char_boundary}
use websocket_std.Http.Headers.{Text}
use websocket_std.WsBasic.Mask.{Mask, gen_mask}
use websocket_std.WsBasic.Header.{fin, noflag, text, continuation}
use websocket_std.WsBasic.Frame.{data_frame, new_data}
use websocket_std.Sync.Deps.{Deps}
use websocket_std.Sync.State.{State, websocket_data, ConnectionStatus, closed}
use websocket_std.Sync.Exec.{Exec, pure, lift, ◌>>=◌, ◌>>◌, push_back_output}

-- `&text[from..to]` of a `str`: both ends are boundaries of characters.
unfoldable pub slice_str : ℕ → ℕ → Text → WebSocketResult Text
slice_str from to text =
    if is_char_boundary text from && is_char_boundary text to then slice from to text else panic

abbrev pub is_closed : ConnectionStatus → Bool
is_closed closed = true
is_closed _ = false

module _ {T : Type 0} (deps : Deps) where
  -- `gen_mask`.
  abbrev pub draw_mask : Exec T Mask
  draw_mask s =
      (ok (gen_mask deps.rand s.draws).0, record s { draws = (gen_mask deps.rand s.draws).1 })

  -- One round of the loop.
  unfoldable pub send_chunk : ℕ → ℕ → Text → Exec T (Unit {0})
  unfolding slice_str new_data gen_mask
  send_chunk size data_sent payload = do
    let next = (data_sent + size) % 2 ^ 64
    payload_chunk ←
        lift
          (slice_str data_sent (if leb (length payload) next then length payload else next) payload)
    mask ← draw_mask
    push_back_output (
        websocket_data (
          data_frame (
            new_data (if leb (length payload) next then fin else noflag)
              (if data_sent == 0 then text else continuation) payload_chunk true none mask)))

  -- The loop, on fuel: `none` if that is used up.
  unfoldable pub send_loop :
      ℕ → ℕ → ℕ → Text → State T → Option (WebSocketResult (Unit {0}) × State T)
  send_loop zero size data_sent payload s = none
  send_loop (suc fuel) size data_sent payload s =
      if ltb data_sent (length payload)
      then elim (send_chunk size data_sent payload s).0 [
        | ok _ ↦
            send_loop fuel size ((data_sent + size) % 2 ^ 64) payload
              (send_chunk size data_sent payload s).1
        | err e ↦ some (err e, (send_chunk size data_sent payload s).1)
        | panic ↦ some (panic, (send_chunk size data_sent payload s).1)
      ]
      else some (ok tt, s)

  -- Nothing is sent on a closed connection.
  unfoldable pub send : ℕ → Text → State T → Option (WebSocketResult (Unit {0}) × State T)
  unfolding send_loop
  send fuel payload s =
      if is_closed s.client.connection_status
      then some (ok tt, s)
      else send_loop fuel s.client.message_size 0 payload s
