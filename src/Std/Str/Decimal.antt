-- ===== src/Std/Str/Decimal.antt =====
-- Decimals of the standard library: `{}` of an unsigned number, which `parse::<u16>` reads back. Used
-- by websocket/src/http/response.rs and by the programs in examples.
use websocket_std.Prelude.{
  ℕ, zero, suc, ◌+◌, ◌-◌, ◌*◌, ◌/◌, ◌%◌, ◌≤◌, ◌<◌, ◌≡◌, ◌∙◌, List, [], ◌∷◌, ◌++◌, append_assoc,
  append-nil, some, true, false, ltb, leb, ◌==◌, if◌then◌else◌, Bool-cases, inl, inr, ltb→lt, arith,
}
use websocket_std.Prelude.{All-append}
use websocket_std.Std.Str.Trim.{IsVisible, AllVisible}
use websocket_std.Std.Str.{parse_u16, u16_loop, after_sign, is_digit}

digits : ℕ → ℕ → List ℕ
digits zero n = []
digits (suc fuel) n =
    let before = digits fuel (n / 10) in
    if ltb n 10 then (48 + n) ∷ [] else before ++ (48 + n % 10) ∷ []

-- `n.to_string()`.
unfoldable pub decimal : ℕ → List ℕ
unfolding digits
decimal n = digits (n + 1) n

u16_loop-digit :
    (acc d : ℕ) (rest : List ℕ)
    → d < 10
    → acc * 10 + d ≤ 65535
    → u16_loop acc ((48 + d) ∷ rest) ≡ u16_loop (acc * 10 + d) rest
unfolding u16_loop
u16_loop-digit acc d rest small fits =
    let back : 48 + d - 48 ≡ d = omega arith in
    let digit : is_digit (48 + d) ≡ true = ground arith in
    let le : leb (acc * 10 + d) 65535 ≡ true = ground arith in rw (back, digit, le)

u16_loop-digits :
    (fuel n : ℕ) (rest : List ℕ)
    → n < fuel
    → n ≤ 65535
    → u16_loop 0 (digits fuel n ++ rest) ≡ u16_loop n rest
unfolding digits
u16_loop-digits zero n rest enough fits = absurd (omega arith)
u16_loop-digits (suc fuel) n rest enough fits = elim (Bool-cases (ltb n 10)) [
  | inl one ↦
      let lt : n < 10 = ltb→lt n 10 one in
      let value : 0 * 10 + n ≡ n = omega arith in
      rw one (u16_loop-digit 0 n rest lt (omega arith) ∙ rw value)
  | inr more ↦
      let ge : 10 ≤ n = ground arith in
      let whole : n / 10 * 10 + n % 10 ≡ n = omega arith in
      rw (more, append_assoc (digits fuel (n / 10)) ((48 + n % 10) ∷ []) rest)
        (u16_loop-digits fuel (n / 10) ((48 + n % 10) ∷ rest) (omega arith) (omega arith)
          ∙ u16_loop-digit (n / 10) (n % 10) rest (omega arith) (omega arith)
          ∙ rw whole)
]

-- A decimal starts with a digit.
FirstDigit : List ℕ → Type 0
FirstDigit text = (d : ℕ) × (rest : List ℕ) × (text ≡ (48 + d) ∷ rest)

digits-FirstDigit : (fuel n : ℕ) → n < fuel → FirstDigit (digits fuel n)
unfolding digits FirstDigit
digits-FirstDigit zero n enough = absurd (omega arith)
digits-FirstDigit (suc fuel) n enough = elim (Bool-cases (ltb n 10)) [
  | inl one ↦ (n, [], rw one)
  | inr more ↦
      let ge : 10 ≤ n = ground arith in
      let (d, rest, e) = digits-FirstDigit fuel (n / 10) (omega arith) in
      (d, rest ++ (48 + n % 10) ∷ [], rw (more, e))
]

parse_u16-digits : (text : List ℕ) → FirstDigit text → parse_u16 text ≡ u16_loop 0 text
unfolding parse_u16 after_sign FirstDigit
parse_u16-digits text (d, rest, e) =
    let no_sign : (48 + d == 43) ≡ false = ground arith in rw (e, no_sign)

-- `n.to_string().parse::<u16>()` is `Ok(n)`.
pub parse_u16-decimal : (n : ℕ) → n ≤ 65535 → parse_u16 (decimal n) ≡ some n
unfolding decimal u16_loop
parse_u16-decimal n fits =
    parse_u16-digits (digits (n + 1) n) (digits-FirstDigit (n + 1) n (omega arith))
    ∙ rw (append-nil (digits (n + 1) n)) at (u16_loop-digits (n + 1) n [] (omega arith) fits)

digits-AllVisible : (fuel n : ℕ) → AllVisible (digits fuel n)
unfolding digits
digits-AllVisible zero n = tt
digits-AllVisible (suc fuel) n = elim (Bool-cases (ltb n 10)) [
  | inl one ↦ let lt : n < 10 = ltb→lt n 10 one in rw one ((omega arith, omega arith), tt)
  | inr more ↦ rw more (
      All-append IsVisible (digits fuel (n / 10)) ((48 + n % 10) ∷ [])
        (digits-AllVisible fuel (n / 10)) ((omega arith, omega arith), tt))
]

pub decimal-AllVisible : (n : ℕ) → AllVisible (decimal n)
unfolding decimal
decimal-AllVisible n = digits-AllVisible (n + 1) n
