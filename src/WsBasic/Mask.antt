-- ===== src/WsBasic/Mask.antt =====
-- websocket/src/ws_basic/mask.rs. The randomness is the crate `getrandom`'s: what the buffer holds
-- after its n-th call is a parameter, also where that call fails, since the source ignores the error.
use websocket_std.Prelude.{ℕ, ◌≡◌, List, length, ◌+◌}
use websocket_std.Core.Binary.{IsBytes}

-- `[u8; 4]`.
abbrev pub Mask : Type 0
Mask = List ℕ

pub record IsMask (m : Mask) : Type 0 where
  pub four : length m ≡ 4
  pub bytes : IsBytes m

-- `fill n k` is the buffer of `k` bytes after the n-th call of `getrandom::getrandom`.
pub record Getrandom : Type 0 where
  pub fill : ℕ → ℕ → List ℕ
  pub length-fill : (n k : ℕ) → length (fill n k) ≡ k
  pub fill-IsBytes : (n k : ℕ) → IsBytes (fill n k)

-- The mask, and the number of the next call.
unfoldable pub gen_mask : Getrandom → ℕ → Mask × ℕ
gen_mask rand n = (rand.fill n 4, n + 1)

pub gen_mask-IsMask : (rand : Getrandom) (n : ℕ) → IsMask (gen_mask rand n).0
unfolding gen_mask
gen_mask-IsMask rand n = record { four = rand.length-fill n 4; bytes = rand.fill-IsBytes n 4 }
