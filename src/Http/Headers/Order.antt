-- ===== src/Http/Headers/Order.antt =====
-- A `HashMap` of headers (websocket/src/http/commons.rs) is iterated in any order: what is found under
-- a name does not depend on it.
use mathlib.Core.List.{Perm, Permᴰ}
use mathlib.Core.Logic.{∥∥₁_elim}
use websocket_std.Prelude.{◌≡◌, refl, sym, ap, ◌∙◌, [], ◌∷◌, none, false, Bool-cases, inl, inr}
use mathlib.Core.Bool.{true≢false}
use websocket_std.Std.Str.{str_eq}
use websocket_std.Std.Str.Equality.{str_eq_refl, str_eq_sound, str_eq_distinct}
use websocket_std.Http.Headers.{Text, Headers, lookup}

-- One entry for a name.
abbrev pub Distinct : Headers → Type 0
Distinct [] = Unit
Distinct (entry ∷ m) = (lookup entry.0 m ≡ none) × Distinct m

str_eq_sym : (s t : Text) → str_eq s t ≡ false → str_eq t s ≡ false
str_eq_sym s t h =
    str_eq_distinct t s λ p. true≢false (sym (str_eq_refl s) ∙ ap (str_eq s) (sym p) ∙ h)

-- The order of two entries.
lookup-swap :
    (k : Text) (a b : Text × Text) (m : Headers)
    → str_eq b.0 a.0 ≡ false
    → lookup k (a ∷ b ∷ m) ≡ lookup k (b ∷ a ∷ m)
unfolding lookup
lookup-swap k a b m apart = elim (Bool-cases (str_eq a.0 k)) [
  | inl e ↦
      let other : str_eq b.0 k ≡ false = ap (str_eq b.0) (sym (str_eq_sound a.0 k e)) ∙ apart in
      rw (e, other)
  | inr e ↦ rw e
]

-- The first of two entries has another name than the second.
apart_of :
    (a b : Text × Text) (m : Headers)
    → lookup a.0 (b ∷ m) ≡ none
    → (str_eq b.0 a.0 ≡ false) × (lookup a.0 m ≡ none)
unfolding lookup
apart_of a b m h = elim (Bool-cases (str_eq b.0 a.0)) [
  | inl e ↦ cc (rw e at h)
  | inr e ↦ (e, rw e at h)
]

lookup-apart :
    (a b : Text × Text) (m : Headers)
    → str_eq a.0 b.0 ≡ false
    → lookup b.0 m ≡ none
    → lookup b.0 (a ∷ m) ≡ none
unfolding lookup
lookup-apart a b m apart h = rw (apart, h)

abbrev Same : Headers → Headers → Type 0
Same xs ys = ((k : Text) → lookup k xs ≡ lookup k ys) × Distinct ys

lookup-cons :
    (k : Text) (a : Text × Text) (xs ys : Headers)
    → lookup k xs ≡ lookup k ys
    → lookup k (a ∷ xs) ≡ lookup k (a ∷ ys)
unfolding lookup
lookup-cons k a xs ys h = rw h

Same-Permᴰ : {xs ys : Headers} → Permᴰ xs ys → Distinct xs → Same xs ys
Same-Permᴰ Permᴰ.nil d = (λ k. refl, tt)
Same-Permᴰ (Permᴰ.cons {a} {b} {l₁ = xs} {l₂ = ys} e p) d =
    let (same, distinct) = Same-Permᴰ p d.1 in
    ((λ k. rw (← e) (lookup-cons k a xs ys (same k))), (rw (← e) (sym (same a.0) ∙ d.0), distinct))
Same-Permᴰ (Permᴰ.swap {a} {b} {a' = c} {b' = f} {l} e g) d =
    let (ba, al) = apart_of a b l d.0 in
    (
      (λ k. rw (← e, ← g) (lookup-swap k a b l ba)),
      (rw (← e, ← g) (lookup-apart a b l (str_eq_sym b.0 a.0 ba) d.1.0), (rw (← e) al, d.1.1)),
    )
Same-Permᴰ (Permᴰ.trans p q) d =
    let (same, distinct) = Same-Permᴰ p d in
    let (more, last) = Same-Permᴰ q distinct in (λ k. same k ∙ more k, last)

-- Entries with different names give the same answers in every order.
pub lookup-Perm :
    (k : Text) {xs ys : Headers} → Perm xs ys → Distinct xs → lookup k xs ≡ lookup k ys
lookup-Perm k p d = ∥∥₁_elim p (hlevel) λ q. (Same-Permᴰ q d).0 k
