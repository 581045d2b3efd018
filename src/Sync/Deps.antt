-- ===== src/Sync/Deps.antt =====
-- What the client takes from outside the repository: the crates `bitflags`, `getrandom`,
-- `sha1_smol` and `base64`, and of the standard library the iteration order of a `HashMap` and the
-- tables of `to_lowercase`.
use websocket_std.Prelude.{ℕ, ◌+◌, List, ◌++◌}
use websocket_std.Std.Str.{codes, str_eq}
use websocket_std.Prelude.{Bool}
use websocket_std.Http.Headers.{Text, Headers}
use websocket_std.WsBasic.Bitflags.{Bitflags}
use websocket_std.WsBasic.Mask.{Getrandom}

pub record Deps : Type 0 where
  pub bitflags : Bitflags
  pub rand : Getrandom
  pub sha1 : List ℕ → List ℕ
  pub base64_encode : List ℕ → Text
  pub order : Headers → List (Text × Text)
  pub to_lowercase : Text → Text

-- websocket/src/ws_basic/key.rs.
abbrev pub guid : Text
guid = codes "258EAFA5-E914-47DA-95CA-C5AB0DC85B11"

-- The key, and the number of the next call of `getrandom`.
unfoldable pub gen_key : Deps → ℕ → Text × ℕ
gen_key deps n = (deps.base64_encode (deps.rand.fill n 16), n + 1)

unfoldable pub verify_key : Deps → Text → Text → Bool
verify_key deps sec_websocket_key sec_websocket_accept =
    str_eq (deps.base64_encode (deps.sha1 (sec_websocket_key ++ guid))) sec_websocket_accept
