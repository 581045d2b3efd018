-- ===== src/Prelude/Bits.antt =====
-- `&`, `|` and `^` on one byte, as arithmetic. The native operations mean a recursion on binary
-- digits, so a fact about one byte and a numeral is looked up in a table of 256 entries.
use Prim.Native.Nat.{ℕ, zero, suc, ◌+◌, ◌*◌, ◌/◌, ◌%◌, ◌<◌, bit_and, bit_or, bit_xor}
use mathlib.Core.Path.{◌≡◌, refl}
use mathlib.Core.Logic.{inl, inr}
use mathlib.Core.Bool.{Bool, true, false}
use native.Mathlib.Omega.{arith}
use websocket_std.Prelude.Tests.{◌==◌, ==_iff, if◌then◌else◌, Bool-cases}

-- `f` and `g` have the same values below the last argument.
unfoldable pub same_row : (ℕ → ℕ) → (ℕ → ℕ) → ℕ → Bool
same_row f g zero = true
same_row f g (suc width) = let row = same_row f g width in if f width == g width then row else false

-- The same for functions of two numbers, below the height and the width.
unfoldable pub same_table : (ℕ → ℕ → ℕ) → (ℕ → ℕ → ℕ) → ℕ → ℕ → Bool
unfolding same_row
same_table f g zero width = true
same_table f g (suc height) width =
    let rows = same_table f g height width in
    if same_row (f height) (g height) width then rows else false

both_true : (b c : Bool) → (if b then c else false) ≡ true → (b ≡ true) × (c ≡ true)
both_true true c h = (refl, h)
both_true false c h = cc

pub same_row_at :
    (f g : ℕ → ℕ) (width : ℕ) → same_row f g width ≡ true → (i : ℕ) → i < width → f i ≡ g i
unfolding same_row
same_row_at f g zero h i lt = absurd (omega arith)
same_row_at f g (suc width) h i lt =
    let (here, rest) = both_true (f width == g width) (same_row f g width) h in
    elim (Bool-cases (i == width)) [
      | inl last ↦ let e : i ≡ width = (==_iff i width).0 last in rw e ((==_iff _ _).0 here)
      | inr other ↦ same_row_at f g width rest i (ground arith)
    ]

pub same_table_at :
    (f g : ℕ → ℕ → ℕ) (height width : ℕ)
    → same_table f g height width ≡ true
    → (j i : ℕ) → j < height
    → i < width
    → f j i ≡ g j i
unfolding same_table
same_table_at f g zero width h j i lj li = absurd (omega arith)
same_table_at f g (suc height) width h j i lj li =
    let (here, rest) = both_true (same_row (f height) (g height) width) _ h in
    elim (Bool-cases (j == height)) [
      | inl last ↦
          let e : j ≡ height = (==_iff j height).0 last in
          rw e (same_row_at (f height) (g height) width here i li)
      | inr other ↦ same_table_at f g height width rest j i (ground arith) li
    ]

-- The masks of a frame's first two bytes.
pub bit_and_flag : (b : ℕ) → b < 256 → bit_and b 0xf0 ≡ b / 16 * 16
unfolding same_row
bit_and_flag = same_row_at _ _ 256 refl

pub bit_and_code : (b : ℕ) → b < 256 → bit_and b 0x1f ≡ b % 32
unfolding same_row
bit_and_code = same_row_at _ _ 256 refl

pub bit_and_length : (b : ℕ) → b < 256 → bit_and 0x7f b ≡ b % 128
unfolding same_row
bit_and_length = same_row_at _ _ 256 refl

pub bit_and_mask_bit : (b : ℕ) → b < 256 → bit_and 0x80 b ≡ b / 128 * 128
unfolding same_row
bit_and_mask_bit = same_row_at _ _ 256 refl

-- The union of a length code below 128 and the mask bit.
pub bit_or_masked : (b : ℕ) → b < 128 → bit_or 0x80 b ≡ b + 128
unfolding same_row
bit_or_masked = same_row_at _ _ 128 refl

pub zero-bit_or : (b : ℕ) → b < 256 → bit_or 0 b ≡ b
unfolding same_row
zero-bit_or = same_row_at _ _ 256 refl

-- `^` with the same byte twice gives the byte back.
pub bit_xor_twice : (m b : ℕ) → m < 256 → b < 256 → bit_xor (bit_xor b m) m ≡ b
unfolding same_table
bit_xor_twice = same_table_at (λ m b. bit_xor (bit_xor b m) m) (λ m b. b) 256 256 refl

pub bit_xor_lt : (m b : ℕ) → m < 256 → b < 256 → bit_xor b m < 256
unfolding same_table
bit_xor_lt m b hm hb =
    let small = same_table_at (λ m b. bit_xor b m / 256) (λ m b. 0) 256 256 refl m b hm hb in
    let high : bit_xor b m / 256 ≡ 0 = small in omega arith

-- The first byte of a frame: three bits of flags over a code of five bits.
pub bit_or_flag : (q c : ℕ) → q < 8 → c < 32 → bit_or (q * 32) c ≡ q * 32 + c
unfolding same_table
bit_or_flag = same_table_at (λ q c. bit_or (q * 32) c) (λ q c. q * 32 + c) 8 32 refl
