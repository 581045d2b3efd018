-- ===== src/Std/Str/Equality.antt =====
-- Equality of texts.
use websocket_std.Prelude.{
  ◌≡◌, ◌≢◌, refl, ap, [], ◌∷◌, List, ℕ, true, false, ◌==◌, ==_iff, Bool-cases, inl, inr,
}
use websocket_std.Std.Str.{str_eq}

pub str_eq_refl : (s : List ℕ) → str_eq s s ≡ true
unfolding str_eq
str_eq_refl [] = refl
str_eq_refl (a ∷ s) = rw ((==_iff a a).1 refl) (str_eq_refl s)

pub str_eq_sound : (s t : List ℕ) → str_eq s t ≡ true → s ≡ t
unfolding str_eq
str_eq_sound [] [] h = refl
str_eq_sound [] (b ∷ t) h = cc
str_eq_sound (a ∷ s) [] h = cc
str_eq_sound (a ∷ s) (b ∷ t) h = elim (Bool-cases (a == b)) [
  | inl e ↦
      let same : a ≡ b = (==_iff a b).0 e in rw same (ap (◌∷◌ b) (str_eq_sound s t (rw e at h)))
  | inr n ↦ cc (rw n at h)
]

pub str_eq_distinct : (s t : List ℕ) → s ≢ t → str_eq s t ≡ false
str_eq_distinct s t n = elim (Bool-cases (str_eq s t)) [
  | inl e ↦ absurd (n (str_eq_sound s t e))
  | inr e ↦ e
]
