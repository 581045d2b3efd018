-- ===== src/Core/Net.antt =====
-- websocket/src/core/net.rs, over the standard library's `Read`.
use websocket_std.Prelude.{ℕ, List, [], ◌∷◌}
use websocket_std.Outcome.{WebSocketResult, ok, err, connection_close, io_error}

-- What `read` comes back with: the bytes that it put into the buffer, none at the end of the file,
-- or an error.
pub data ReadResult : Type 0 where
  got : List ℕ → ReadResult
  would_block failed : ReadResult

-- The bytes that are in the buffer now.
unfoldable pub read_into_buffer : ReadResult → WebSocketResult (List ℕ)
read_into_buffer (got []) = err connection_close
read_into_buffer (got (b ∷ bs)) = ok (b ∷ bs)
read_into_buffer would_block = ok []
read_into_buffer failed = err io_error
