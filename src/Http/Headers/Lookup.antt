-- ===== src/Http/Headers/Lookup.antt =====
-- `HashMap::insert` and `HashMap::get` on the headers (websocket/src/http).
use websocket_std.Prelude.{
  ◌≡◌, refl, sym, ap, ◌∙◌, [], ◌∷◌, some, false, Bool-cases, inl, inr, if◌then◌else◌,
}
use mathlib.Core.Bool.{true≢false}
use websocket_std.Std.Str.{str_eq}
use websocket_std.Std.Str.Equality.{str_eq_refl, str_eq_sound, str_eq_distinct}
use websocket_std.Http.Headers.{Text, Headers, insert, lookup}

-- What is found under a name after an insertion: the new value under the name of the insertion, and
-- under every other name what was found before.
pub lookup-insert :
    (k v j : Text) (m : Headers)
    → lookup j (insert k v m) ≡ (if str_eq k j then some v else lookup j m)
unfolding lookup insert
lookup-insert k v j [] = refl
lookup-insert k v j ((i, w) ∷ m) = elim (Bool-cases (str_eq i k)) [
  | inl e ↦
      let head : str_eq i j ≡ str_eq k j = ap (λ x. str_eq x j) (str_eq_sound i k e) in
      elim (Bool-cases (str_eq k j)) [ inl g ↦ rw (e, head, g) | inr g ↦ rw (e, head, g) ]
  | inr e ↦ elim (Bool-cases (str_eq i j)) [
    | inl f ↦
        let other : str_eq k j ≡ false = str_eq_distinct k j λ p.
          true≢false
            (sym (str_eq_refl k) ∙ ap (λ x. str_eq x k) (p ∙ sym (str_eq_sound i j f)) ∙ e) in
        rw (e, f, other)
    | inr f ↦ rw (e, f) (lookup-insert k v j m)
  ]
]
