-- ===== src/Core/Binary.antt =====
-- websocket/src/core/binary.rs, with the standard library's `from_be_bytes` and `to_be_bytes`.
use websocket_std.Prelude.{
  ℕ, zero, suc, ◌+◌, ◌*◌, ◌/◌, ◌%◌, ◌^◌, ◌<◌, ◌≡◌, refl, ap, ◌∙◌, List, [], ◌∷◌, ◌++◌, length,
  length-append, All, All-append, ◌==◌, if◌then◌else◌, arith,
}
use websocket_std.Outcome.{Outcome, ok, err}
use native.Mathlib.Nat.{pow-suc}

abbrev pub IsByte : ℕ → Type 0
IsByte b = b < 256

abbrev pub IsBytes : List ℕ → Type 0
IsBytes = All IsByte

-- The longest `Vec` or slice: an allocation holds at most `isize::MAX` bytes.
abbrev pub IsVec : List ℕ → Type 0
IsVec bs = length bs < 2 ^ 63

-- The error of `<[u8; n]>::try_from(slice)`.
pub data TryFromSliceError : Type 0 where
  try_from_slice_error : TryFromSliceError

be_loop : ℕ → List ℕ → ℕ
be_loop acc [] = acc
be_loop acc (b ∷ bs) = be_loop (acc * 256 + b) bs

unfoldable pub from_be_bytes : List ℕ → ℕ
unfolding be_loop
from_be_bytes bs = be_loop 0 bs

-- The `k` bytes of a number of `8 * k` bits, highest first.
unfoldable pub to_be_bytes : ℕ → ℕ → List ℕ
to_be_bytes zero v = []
to_be_bytes (suc k) v = to_be_bytes k (v / 256) ++ v % 256 ∷ []

unfoldable pub bytes_to_u64 : List ℕ → Outcome TryFromSliceError ℕ
unfolding from_be_bytes
bytes_to_u64 bytes =
    if length bytes == 8 then ok (from_be_bytes bytes) else err try_from_slice_error

unfoldable pub bytes_to_u16 : List ℕ → Outcome TryFromSliceError ℕ
unfolding from_be_bytes
bytes_to_u16 bytes =
    if length bytes == 2 then ok (from_be_bytes bytes) else err try_from_slice_error

pub length-to_be_bytes : (k v : ℕ) → length (to_be_bytes k v) ≡ k
unfolding to_be_bytes
length-to_be_bytes zero v = refl
length-to_be_bytes (suc k) v =
    omega (
      arith,
      length-append (to_be_bytes k (v / 256)) (v % 256 ∷ []),
      length-to_be_bytes k (v / 256),
    )

pub to_be_bytes-IsBytes : (k v : ℕ) → IsBytes (to_be_bytes k v)
unfolding to_be_bytes
to_be_bytes-IsBytes zero v = tt
to_be_bytes-IsBytes (suc k) v =
    All-append IsByte (to_be_bytes k (v / 256)) (v % 256 ∷ []) (to_be_bytes-IsBytes k (v / 256))
      (omega arith, tt)

be_loop-append :
    (acc : ℕ) (bs : List ℕ) (b : ℕ) → be_loop acc (bs ++ b ∷ []) ≡ be_loop acc bs * 256 + b
unfolding be_loop
be_loop-append acc [] b = refl
be_loop-append acc (c ∷ bs) b = be_loop-append (acc * 256 + c) bs b

pub from_be_bytes-to_be_bytes : (k v : ℕ) → v < 256 ^ k → from_be_bytes (to_be_bytes k v) ≡ v
unfolding from_be_bytes to_be_bytes
from_be_bytes-to_be_bytes zero v h = omega arith
from_be_bytes-to_be_bytes (suc k) v h =
    be_loop-append 0 (to_be_bytes k (v / 256)) (v % 256)
    ∙ omega (arith, from_be_bytes-to_be_bytes k (v / 256) (omega (arith, pow-suc 256 k)))

be_loop-lt :
    (bs : List ℕ) (acc k : ℕ) → IsBytes bs → acc < 256 ^ k → be_loop acc bs < 256 ^ (k + length bs)
unfolding be_loop
be_loop-lt [] acc k hb h = let e : k + 0 ≡ k = omega arith in rw e h
be_loop-lt (b ∷ bs) acc k hb h =
    let e : k + suc (length bs) ≡ suc k + length bs = omega arith in
    rw e (be_loop-lt bs (acc * 256 + b) (suc k) hb.1 (omega (arith, pow-suc 256 k)))

-- `n` bytes hold a number below 256 ^ n.
pub from_be_bytes-lt : (bs : List ℕ) → IsBytes bs → from_be_bytes bs < 256 ^ length bs
unfolding from_be_bytes
from_be_bytes-lt bs h =
    let e : 0 + length bs ≡ length bs = omega arith in rw e at (be_loop-lt bs 0 0 h (omega arith))

pub bytes_to_u16-to_be_bytes : (v : ℕ) → v < 2 ^ 16 → bytes_to_u16 (to_be_bytes 2 v) ≡ ok v
unfolding bytes_to_u16
bytes_to_u16-to_be_bytes v h =
    rw (length-to_be_bytes 2 v) (ap ok (from_be_bytes-to_be_bytes 2 v (omega arith)))

pub bytes_to_u64-to_be_bytes : (v : ℕ) → v < 2 ^ 64 → bytes_to_u64 (to_be_bytes 8 v) ≡ ok v
unfolding bytes_to_u64
bytes_to_u64-to_be_bytes v h =
    rw (length-to_be_bytes 8 v) (ap ok (from_be_bytes-to_be_bytes 8 v (omega arith)))
