-- ===== src/Sync/Input/Reading.antt =====
-- `WSClient::read_bytes_from_socket` (websocket/src/sync/client.rs) on a frame that comes in pieces.
use websocket_std.Prelude.{
  ℕ, ◌≡◌, ◌≤◌, refl, ap, ◌∙◌, List, [], ◌∷◌, ◌++◌, drop, length, Option, none, some, true, false,
  take_all, drop_all, drop_exact,
}
use websocket_std.Outcome.{WebSocketResult, ok}
use websocket_std.Core.Binary.{IsVec}
use websocket_std.Core.Net.{ReadResult, got, read_into_buffer}
use websocket_std.WsBasic.Header
use websocket_std.WsBasic.Frame
use websocket_std.WsBasic.Frame.{Frame, data_frame, new_data, bytes_to_frame, is_data}
use websocket_std.WsBasic.Frame.Written.{IsFlag}
use websocket_std.WsBasic.Frame.RoundTrip.{bytes_to_frame-serialize_data}
use websocket_std.Sync.Deps.{Deps}
use websocket_std.Sync.Tcp.{TcpStream, read}
use websocket_std.Sync.State.{
  State, websocket_data, ConnectionStatus, not_init, start_init, handshake, opened,
  client_wants_to_close, server_wants_to_close, closed,
}
use websocket_std.Sync.Exec.{continue}
use websocket_std.Sync.Input.{
  read_bytes_from_socket, read_socket, read_event, handle_recv_bytes_frame, take_frame,
}

Start : List ℕ → Type 0
Start bytes = (b : ℕ) × (bs : List ℕ) × (bytes ≡ b ∷ bs)

serialize-Start : (f : Frame) (rest : List ℕ) → Start (Frame.serialize f ++ rest)
unfolding Start Frame.serialize Header.serialize
serialize-Start f rest = (_, _, refl)

-- The states in which frames are read.
abbrev pub Reads : ConnectionStatus → Type 0
Reads opened = Unit
Reads client_wants_to_close = Unit
Reads server_wants_to_close = Unit
Reads _ = ⊥

module _ {T : Type 0} (deps : Deps) where
  read_event-Reads :
      (at : ConnectionStatus) (b : ℕ) (bs : List ℕ) (s : State T)
      → Reads at
      → read_event deps at (b ∷ bs) s ≡ handle_recv_bytes_frame deps s
  unfolding read_event
  read_event-Reads opened b bs s live = refl
  read_event-Reads client_wants_to_close b bs s live = refl
  read_event-Reads server_wants_to_close b bs s live = refl
  read_event-Reads not_init b bs s live = elim live [ ]
  read_event-Reads start_init b bs s live = elim live [ ]
  read_event-Reads handshake b bs s live = elim live [ ]
  read_event-Reads closed b bs s live = elim live [ ]

  -- Some bytes are there, and they start with a frame.
  read_event-frame :
      (at : ConnectionStatus) (f : Frame) (bytes rest : List ℕ) (b : ℕ) (bs : List ℕ) (s : State T)
      → Reads at
      → s.client.recv_storage ≡ bytes ++ rest
      → bytes ++ rest ≡ b ∷ bs
      → bytes_to_frame deps.bitflags (bytes ++ rest) ≡ ok (some (f, length bytes))
      → read_event deps at s.client.recv_storage s
        ≡ (ok (websocket_data f), record s { client = record s.client { recv_storage = rest } })
  unfolding handle_recv_bytes_frame take_frame
  read_event-frame at f bytes rest b bs s live stored start parsed =
      let left : drop (length bytes) s.client.recv_storage ≡ rest =
        ap (drop (length bytes)) stored ∙ drop_exact (length bytes) bytes rest refl in
      ap (λ (xs : List ℕ). read_event deps at xs s) (stored ∙ start)
      ∙ read_event-Reads at b bs s live
      ∙ ap (λ (xs : List ℕ). continue (bytes_to_frame deps.bitflags xs) (take_frame deps) s) stored
      ∙ ap (λ (r : WebSocketResult (Option (Frame × ℕ))). continue r (take_frame deps) s) parsed
      ∙ ap
          (λ (xs : List ℕ).
            (ok (websocket_data f), record s { client = record s.client { recv_storage = xs } }))
          left

  pub read_socket-chunk :
      (c : ℕ) (cs : List ℕ) (stream : TcpStream) (later : List ReadResult) (s : State T)
      → s.client.stream ≡ some stream
      → stream.incoming ≡ got (c ∷ cs) ∷ later
      → length (c ∷ cs) ≤ 1024
      → read_socket deps s ≡ (
        ok (c ∷ cs),
        record s {
          client = record s.client { stream = some (record stream { incoming = later }) };
        },
      )
  unfolding read_socket read read_into_buffer
  read_socket-chunk c cs stream later s has comes fits =
      rw (has, comes, take_all 1024 (c ∷ cs) fits, drop_all 1024 (c ∷ cs) fits)

-- A frame that has come in pieces, is there with the last of them and parses as it was written.
pub read_bytes_from_socket-parsed :
    {T : Type 0} (deps : Deps) (at : ConnectionStatus) (f : Frame) (rest : List ℕ) (c : ℕ)
    (cs : List ℕ) (stream : TcpStream) (later : List ReadResult) (s : State T)
    → Reads at
    → s.client.connection_status ≡ at
    → s.client.stream ≡ some stream
    → stream.incoming ≡ got (c ∷ cs) ∷ later
    → length (c ∷ cs) ≤ 1024
    → s.client.recv_storage ++ c ∷ cs ≡ Frame.serialize f ++ rest
    → bytes_to_frame deps.bitflags (Frame.serialize f ++ rest)
      ≡ ok (some (f, length (Frame.serialize f)))
    → read_bytes_from_socket deps s ≡ (
      ok (websocket_data f),
      record s {
        client = record s.client {
          recv_storage = rest;
          stream = some (record stream { incoming = later });
        };
      },
    )
unfolding read_bytes_from_socket Start
read_bytes_from_socket-parsed deps at f rest c cs stream later s live st has comes fits whole
      parsed =
    let (b, bs, start) = serialize-Start f rest in
    rw (read_socket-chunk deps c cs stream later s has comes fits, st)
      (read_event-frame deps at f (Frame.serialize f) rest b bs _ live whole start parsed)

-- A text, binary or continuation frame without a mask, which has come in pieces and is there with the
-- last of them: the event is the frame as it was written, and what has come behind it stays in the
-- storage. The last read is not empty and fits the buffer.
pub read_bytes_from_socket-frame :
    {T : Type 0} (deps : Deps) (flag code : ℕ) (payload rest : List ℕ) (c : ℕ) (cs : List ℕ)
    (stream : TcpStream) (later : List ReadResult) (s : State T)
    → IsFlag flag
    → is_data code ≡ true
    → IsVec payload
    → s.client.connection_status ≡ opened
    → s.client.stream ≡ some stream
    → stream.incoming ≡ got (c ∷ cs) ∷ later
    → length (c ∷ cs) ≤ 1024
    → s.client.recv_storage ++ c ∷ cs
      ≡ Frame.serialize (data_frame (new_data flag code payload false none [])) ++ rest
    → read_bytes_from_socket deps s ≡ (
      ok (websocket_data (data_frame (new_data flag code payload false none []))),
      record s {
        client = record s.client {
          recv_storage = rest;
          stream = some (record stream { incoming = later });
        };
      },
    )
read_bytes_from_socket-frame deps flag code payload rest c cs stream later s fl d v st has comes
      fits whole =
    read_bytes_from_socket-parsed deps opened
      (data_frame (new_data flag code payload false none [])) rest c cs stream later s tt st has
      comes fits whole (bytes_to_frame-serialize_data deps.bitflags flag code fl payload rest d v)
