-- ===== src/Sync/Tcp.antt =====
-- `std::net::TcpStream` in non-blocking mode, as websocket/src/sync/client.rs uses it. What the
-- peer and the network do is in the value: what the next reads find, how the next writes and the
-- next shutdowns end. `sent` is what has gone out.
use websocket_std.Prelude.{ℕ, List, [], ◌∷◌, ◌++◌, take, drop, Bool, true}
use websocket_std.Core.Net.{ReadResult, got, would_block, failed}

-- `write_all` puts all bytes out, or stops behind the first `n` of them.
pub data WriteResult : Type 0 where
  accepted : WriteResult
  blocked : ℕ → WriteResult
  broken : ℕ → WriteResult

pub record TcpStream : Type 0 where
  pub incoming : List ReadResult
  pub writes : List WriteResult
  pub shutdowns : List Bool
  pub sent : List ℕ

-- What does not fit the buffer stays for the next read.
abbrev left_over : List ℕ → List ReadResult → List ReadResult
left_over [] rest = rest
left_over (b ∷ bs) rest = got (b ∷ bs) ∷ rest

abbrev read_from : ℕ → List ReadResult → ReadResult × List ReadResult
read_from size [] = (would_block, [])
read_from size (got bs ∷ rest) = (got (take size bs), left_over (drop size bs) rest)
read_from size (would_block ∷ rest) = (would_block, rest)
read_from size (failed ∷ rest) = (failed, rest)

unfoldable pub read : ℕ → TcpStream → ReadResult × TcpStream
read size s = let (r, rest) = read_from size s.incoming in (r, record s { incoming = rest })

abbrev write_to : List ℕ → List WriteResult → WriteResult × (List ℕ × List WriteResult)
write_to bytes [] = (accepted, (bytes, []))
write_to bytes (accepted ∷ rest) = (accepted, (bytes, rest))
write_to bytes (blocked n ∷ rest) = (blocked n, (take n bytes, rest))
write_to bytes (broken n ∷ rest) = (broken n, (take n bytes, rest))

unfoldable pub write_all : List ℕ → TcpStream → WriteResult × TcpStream
write_all bytes s =
    let (r, w) = write_to bytes s.writes in (r, record s { sent = s.sent ++ w.0; writes = w.1 })

abbrev shut : List Bool → Bool × List Bool
shut [] = (true, [])
shut (b ∷ rest) = (b, rest)

-- Whether `shutdown(Shutdown::Both)` succeeds.
unfoldable pub shutdown : TcpStream → Bool × TcpStream
shutdown s = let (r, rest) = shut s.shutdowns in (r, record s { shutdowns = rest })
