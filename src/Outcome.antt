-- ===== src/Outcome.antt =====
-- How a call of the program ends: with a value, with an error of the type that its `Result` names,
-- or with a panic (an index or a slice out of range, `unwrap` of nothing, `todo!`). `WebSocketError`
-- is websocket/src/result.rs.
pub mod Display
pub mod Slices
use websocket_std.Prelude.{
  ℕ, ◌-◌, ◌≤◌, ◌<◌, ◌≡◌, refl, ◌&&◌, List, take, drop, length, get_elem?, Option, none, some, leb,
  if◌then◌else◌, arith, leb→le, Bool-cases, ◌++◌, ◌∙◌, length-append, drop-append, take-append,
  length-drop, le→leb, ◌⊎◌, inl, inr,
}

pub data WebSocketError : Type 0 where
  unreachable_host hand_shake invalid_frame connection_close decoding_from_utf8 io_error :
      WebSocketError

pub data Outcome {ℓ} (E : Type 0) (A : Type ℓ) : Type ℓ where
  ok : A → Outcome E A
  err : E → Outcome E A
  panic : Outcome E A

abbrev pub WebSocketResult {ℓ} : Type ℓ → Type ℓ
WebSocketResult A = Outcome WebSocketError A

infixl 5 ◌>>=◌
abbrev pub ◌>>=◌ {ℓ κ} :
    {E : Type 0} {A : Type ℓ} {B : Type κ} → Outcome E A → (A → Outcome E B) → Outcome E B
ok a >>= f = f a
err e >>= f = err e
panic >>= f = panic

-- `Result::unwrap`: an error becomes a panic.
abbrev pub unwrap {ℓ} : {E F : Type 0} {A : Type ℓ} → Outcome E A → Outcome F A
unwrap (ok a) = ok a
unwrap (err e) = panic
unwrap panic = panic

-- `Option::unwrap`.
abbrev pub expect {ℓ} : {F : Type 0} {A : Type ℓ} → Option A → Outcome F A
expect none = panic
expect (some a) = ok a

-- `&xs[from..to]`.
unfoldable pub slice {ℓ} : {F : Type 0} {A : Type ℓ} → ℕ → ℕ → List A → Outcome F (List A)
slice from to xs =
    if leb from to && leb to (length xs) then ok (take (to - from) (drop from xs)) else panic

-- `xs[i]`.
abbrev pub index {ℓ} : {F : Type 0} {A : Type ℓ} → List A → ℕ → Outcome F A
index xs i = expect (get_elem? xs i)

-- No panic.
abbrev pub Returns {ℓ} : {E : Type 0} {A : Type ℓ} → Outcome E A → Type 0
Returns (ok a) = Unit
Returns (err e) = Unit
Returns panic = ⊥

module _ {ℓ} {A : Type ℓ} where
  pub slice-ok :
      (F : Type 0) (from to : ℕ) (xs : List A)
      → from ≤ to
      → to ≤ length xs
      → slice {F = F} from to xs ≡ ok (take (to - from) (drop from xs))
  unfolding slice
  slice-ok F from to xs h k = rw (le→leb from to h, le→leb to (length xs) k)

  pub slice-panic :
      (F : Type 0) (from to : ℕ) (xs : List A)
      → (to < from) ⊎ (length xs < to)
      → slice {F = F} from to xs ≡ panic
  unfolding slice
  slice-panic F from to xs h = ground arith

  pub slice-cases :
      (F : Type 0) (from to : ℕ) (xs : List A)
      → ((from ≤ to)
          × (to ≤ length xs)
          × (slice {F = F} from to xs ≡ ok (take (to - from) (drop from xs))))
        ⊎ (((to < from) ⊎ (length xs < to)) × (slice {F = F} from to xs ≡ panic))
  unfolding slice
  slice-cases F from to xs = elim (Bool-cases (leb from to)) [
    | inl a ↦ elim (Bool-cases (leb to (length xs))) [
      | inl b ↦ inl (leb→le from to a, leb→le to (length xs) b, rw (a, b))
      | inr b ↦ inr (inr (ground arith), rw (a, b))
    ]
    | inr a ↦ inr (inl (ground arith), rw a)
  ]

  -- A slice that was in range stays what it was when the list grows at its end.
  pub slice-append :
      (F : Type 0) (from to : ℕ) (xs ys : List A)
      → from ≤ to
      → to ≤ length xs
      → slice {F = F} from to (xs ++ ys) ≡ slice from to xs
  slice-append F from to xs ys h k =
      slice-ok F from to (xs ++ ys) h (omega (arith, length-append xs ys))
      ∙ rw (
        drop-append from xs ys (omega arith),
        take-append (to - from) (drop from xs) ys (omega (arith, length-drop from xs)),
        slice-ok F from to xs h k,
      )

  pub slice-bind-append {κ} :
      {F : Type 0} {B : Type κ} (from to : ℕ) (xs ys : List A) (k : List A → Outcome F B) {v : B}
      → (slice from to xs >>= k) ≡ ok v
      → (slice from to (xs ++ ys) >>= k) ≡ ok v
  slice-bind-append {F} from to xs ys k h = elim (slice-cases F from to xs) [
    | inl (le, fits, e) ↦ rw (slice-append F from to xs ys le fits) h
    | inr (_, e) ↦ cc (rw e at h)
  ]

-- Two continuations, the second of which succeeds where the first does.
pub bind_mono {ℓ κ} :
    {E : Type 0} {A : Type ℓ} {B : Type κ} (m : Outcome E A) (f g : A → Outcome E B) {v : B}
    → ((a : A) → f a ≡ ok v → g a ≡ ok v)
    → (m >>= f) ≡ ok v
    → (m >>= g) ≡ ok v
bind_mono (ok a) f g step h = step a h
bind_mono (err e) f g step h = cc
bind_mono panic f g step h = cc

-- Inversion of a bind that succeeds.
pub >>=-eq-ok {ℓ κ} :
    {E : Type 0} {A : Type ℓ} {B : Type κ} (m : Outcome E A) (f : A → Outcome E B) {v : B}
    → (m >>= f) ≡ ok v
    → (a : A) × (m ≡ ok a) × (f a ≡ ok v)
>>=-eq-ok (ok a) f h = (a, refl, h)
>>=-eq-ok (err e) f h = cc
>>=-eq-ok panic f h = cc

-- No error: a value or a panic.
abbrev pub NotErr {ℓ} : {E : Type 0} {A : Type ℓ} → Outcome E A → Type 0
NotErr (ok a) = Unit
NotErr (err e) = ⊥
NotErr panic = Unit

pub NotErr-ne {ℓ} : {E : Type 0} {A : Type ℓ} (m : Outcome E A) {e : E} → NotErr m → m ≡ err e → ⊥
NotErr-ne (ok a) h p = cc
NotErr-ne (err e) h p = h
NotErr-ne panic h p = cc

pub NotErr-bind {ℓ κ} :
    {E : Type 0} {A : Type ℓ} {B : Type κ} (m : Outcome E A) (k : A → Outcome E B)
    → NotErr m
    → ((a : A) → NotErr (k a))
    → NotErr (m >>= k)
NotErr-bind (ok a) k h g = g a
NotErr-bind (err e) k h g = h
NotErr-bind panic k h g = tt

pub NotErr-unwrap {ℓ} :
    {E : Type 0} (F : Type 0) {A : Type ℓ} (m : Outcome E A) → NotErr (unwrap {F = F} m)
NotErr-unwrap F (ok a) = tt
NotErr-unwrap F (err e) = tt
NotErr-unwrap F panic = tt

pub NotErr-slice {ℓ} :
    (F : Type 0) {A : Type ℓ} (from to : ℕ) (xs : List A) → NotErr (slice {F = F} from to xs)
NotErr-slice F from to xs = elim (slice-cases F from to xs) [
  | inl (_, _, e) ↦ rw e tt
  | inr (_, e) ↦ rw e tt
]

pub bind-panic {ℓ κ} :
    {E : Type 0} {A : Type ℓ} {B : Type κ} (m : Outcome E A) (k : A → Outcome E B)
    → NotErr m
    → ((a : A) → k a ≡ panic)
    → (m >>= k) ≡ panic
bind-panic (ok a) k h g = g a
bind-panic (err e) k h g = absurd h
bind-panic panic k h g = refl
