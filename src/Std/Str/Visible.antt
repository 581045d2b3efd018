-- ===== src/Std/Str/Visible.antt =====
-- Tests for the characters of a text: visible, printable, or other than one byte.
use websocket_std.Prelude.{
  ℕ, ◌≤◌, ◌<◌, ◌≡◌, List, [], ◌∷◌, Bool, true, false, ◌&&◌, leb, ltb, ◌==◌, if◌then◌else◌, All,
  Bool-cases, inl, inr, arith,
}
use websocket_std.Std.Str.Trim.{AllVisible}
use websocket_std.Std.Str.Split.{Without}

abbrev between : ℕ → ℕ → Bool
between low b = leb low b && ltb b 128

unfoldable pub all_between : ℕ → List ℕ → Bool
all_between low [] = true
all_between low (b ∷ text) =
    let rest = all_between low text in if between low b then rest else false

all_between_sound :
    (low : ℕ) (text : List ℕ) → all_between low text ≡ true → All (λ b. (low ≤ b) × (b < 128)) text
unfolding all_between
all_between_sound low [] h = tt
all_between_sound low (b ∷ text) h = elim (Bool-cases (leb low b && ltb b 128)) [
  | inl good ↦
      ((ground (arith, good), ground (arith, good)), all_between_sound low text (rw good at h))
  | inr bad ↦ absurd (cc (rw bad at h))
]

pub visible : (text : List ℕ) → all_between 33 text ≡ true → AllVisible text
visible text h = all_between_sound 33 text h

pub printed : (text : List ℕ) → all_between 32 text ≡ true → All (λ b. (32 ≤ b) × (b < 128)) text
printed text h = all_between_sound 32 text h

unfoldable pub no_byte : ℕ → List ℕ → Bool
no_byte p [] = true
no_byte p (b ∷ text) = let rest = no_byte p text in if b == p then false else rest

pub without : (p : ℕ) (text : List ℕ) → no_byte p text ≡ true → Without p text
unfolding no_byte
without p [] h = tt
without p (b ∷ text) h = elim (Bool-cases (b == p)) [
  | inl good ↦ absurd (cc (rw good at h))
  | inr bad ↦ ((λ e. ground (arith, bad, e)), without p text (rw bad at h))
]
