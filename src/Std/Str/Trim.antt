-- ===== src/Std/Str/Trim.antt =====
-- `str::trim` takes nothing but bytes of the text.
use mathlib.Core.List.{reverse, reverse_aux, reverse-reverse}
use websocket_std.Prelude.{
  ℕ, ◌≤◌, ◌<◌, ◌≡◌, refl, List, [], ◌∷◌, Bool, true, false, ◌==◌, if◌then◌else◌, All, arith,
}
use websocket_std.Std.Str.{trim_start, trim_back, trim, space1, space2, space3}

module _ (P : ℕ → Type 0) where
  All-if : (b : Bool) (xs ys : List ℕ) → All P xs → All P ys → All P (if b then xs else ys)
  All-if true xs ys h k = h
  All-if false xs ys h k = k

  All-reverse_aux : (xs ys : List ℕ) → All P xs → All P ys → All P (reverse_aux xs ys)
  All-reverse_aux [] ys h k = k
  All-reverse_aux (x ∷ xs) ys h k = All-reverse_aux xs (x ∷ ys) h.1 (h.0, k)

  All-trim_start : (text : List ℕ) → All P text → All P (trim_start text)
  unfolding trim_start
  All-trim_start [] h = tt
  All-trim_start (a ∷ []) h = All-if (space1 a) [] (a ∷ []) tt h
  All-trim_start (a ∷ b ∷ []) h =
      All-if (space1 a) _ _ (All-trim_start (b ∷ []) h.1) (All-if (space2 a b) _ _ tt h)
  All-trim_start (a ∷ b ∷ c ∷ text) h = All-if (space1 a) _ _ (All-trim_start (b ∷ c ∷ text) h.1) (
      All-if (space2 a b) _ _ (All-trim_start (c ∷ text) h.1.1)
        (All-if (space3 a b c) _ _ (All-trim_start text h.1.1.1) h))

  All-trim_back : (text : List ℕ) → All P text → All P (trim_back text)
  unfolding trim_back
  All-trim_back [] h = tt
  All-trim_back (c ∷ []) h = All-if (space1 c) [] (c ∷ []) tt h
  All-trim_back (c ∷ b ∷ []) h =
      All-if (space1 c) _ _ (All-trim_back (b ∷ []) h.1) (All-if (space2 b c) _ _ tt h)
  All-trim_back (c ∷ b ∷ a ∷ text) h = All-if (space1 c) _ _ (All-trim_back (b ∷ a ∷ text) h.1) (
      All-if (space2 b c) _ _ (All-trim_back (a ∷ text) h.1.1)
        (All-if (space3 a b c) _ _ (All-trim_back text h.1.1.1) h))

  pub All-trim : (text : List ℕ) → All P text → All P (trim text)
  unfolding trim
  All-trim text h =
      All-reverse_aux _ []
        (All-trim_back (reverse (trim_start text))
          (All-reverse_aux (trim_start text) [] (All-trim_start text h) tt))
        tt

-- A byte of a character that is no white space, and not more than one byte.
abbrev pub IsVisible : ℕ → Type 0
IsVisible b = (33 ≤ b) × (b < 128)

abbrev pub AllVisible : List ℕ → Type 0
AllVisible = All IsVisible

no_space1 : (b : ℕ) → IsVisible b → space1 b ≡ false
no_space1 b h = ground (arith, h)

no_space2 : (a b : ℕ) → a < 128 → space2 a b ≡ false
no_space2 a b h = ground (arith, h)

no_space3 : (a b c : ℕ) → a < 128 → space3 a b c ≡ false
no_space3 a b c h =
    let e1 : (a == 0xe1) ≡ false = ground (arith, h) in
    let e2 : (a == 0xe2) ≡ false = ground (arith, h) in
    let e3 : (a == 0xe3) ≡ false = ground (arith, h) in rw (e1, e2, e3) refl

trim_start-AllVisible : (text : List ℕ) → AllVisible text → trim_start text ≡ text
unfolding trim_start
trim_start-AllVisible [] h = refl
trim_start-AllVisible (a ∷ []) h = rw (no_space1 a h.0) refl
trim_start-AllVisible (a ∷ b ∷ []) h = rw (no_space1 a h.0, no_space2 a b h.0.1) refl
trim_start-AllVisible (a ∷ b ∷ c ∷ text) h =
    rw (no_space1 a h.0, no_space2 a b h.0.1, no_space3 a b c h.0.1) refl

trim_back-AllVisible : (text : List ℕ) → AllVisible text → trim_back text ≡ text
unfolding trim_back
trim_back-AllVisible [] h = refl
trim_back-AllVisible (c ∷ []) h = rw (no_space1 c h.0) refl
trim_back-AllVisible (c ∷ b ∷ []) h = rw (no_space1 c h.0, no_space2 b c h.1.0.1) refl
trim_back-AllVisible (c ∷ b ∷ a ∷ text) h =
    rw (no_space1 c h.0, no_space2 b c h.1.0.1, no_space3 a b c h.1.1.0.1) refl

-- Visible characters are not trimmed.
pub trim-AllVisible : (text : List ℕ) → AllVisible text → trim text ≡ text
unfolding trim
trim-AllVisible text h =
    rw
      (
        trim_start-AllVisible text h,
        trim_back-AllVisible (reverse text) (All-reverse_aux IsVisible text [] h tt),
      )
      (reverse-reverse text)

pub trim-space : (text : List ℕ) → trim (32 ∷ text) ≡ trim text
unfolding trim trim_start
trim-space [] = refl
trim-space (b ∷ []) = refl
trim-space (b ∷ c ∷ text) = refl
