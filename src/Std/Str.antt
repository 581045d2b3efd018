-- ===== src/Std/Str.antt =====
-- `str` methods of the standard library: `find`, `split`, `trim`, `parse::<u16>`, used by
-- websocket/src/http/response.rs.
pub mod Equality
pub mod Trim
pub mod Decimal
pub mod Split
pub mod Visible
use Prim.Native.Char.{code}
use Prim.Native.String.{String}
use mathlib.Core.List.{reverse}
use websocket_std.Prelude.{
  ℕ, zero, suc, ◌+◌, ◌-◌, ◌*◌, List, [], ◌∷◌, ◌++◌, Bool, true, false, ◌&&◌, ◌||◌, leb, ◌==◌,
  if◌then◌else◌, Option, none, some, length,
}

-- The bytes of an ASCII literal.
abbrev pub codes : String → List ℕ
codes String.[] = []
codes (String.◌∷◌ c s) = code c ∷ codes s

unfoldable pub str_eq : List ℕ → List ℕ → Bool
str_eq [] [] = true
str_eq [] (b ∷ t) = false
str_eq (a ∷ s) [] = false
str_eq (a ∷ s) (b ∷ t) = a == b && str_eq s t

unfoldable pub starts_with : List ℕ → List ℕ → Bool
starts_with [] text = true
starts_with (p ∷ pat) [] = false
starts_with (p ∷ pat) (b ∷ text) = p == b && starts_with pat text

abbrev next : Option ℕ → Option ℕ
next none = none
next (some i) = some (i + 1)

-- `text.find(pat)`.
unfoldable pub find : List ℕ → List ℕ → Option ℕ
unfolding starts_with
find pat [] = if starts_with pat [] then some 0 else none
find pat (b ∷ text) = if starts_with pat (b ∷ text) then some 0 else next (find pat text)

-- `text.split(pat)`: `skip` bytes of a separator are still to be passed, `part` is the part so far.
split_loop : List ℕ → ℕ → List ℕ → List ℕ → List (List ℕ)
unfolding starts_with
split_loop pat skip part [] = part ∷ []
split_loop pat (suc skip) part (b ∷ text) = split_loop pat skip part text
split_loop pat zero part (b ∷ text) =
    let after = part ∷ split_loop pat (length pat - 1) [] text in
    let within = split_loop pat 0 (part ++ b ∷ []) text in
    if starts_with pat (b ∷ text) then after else within

unfoldable pub split : List ℕ → List ℕ → List (List ℕ)
unfolding split_loop
split pat text = split_loop pat 0 [] text

-- The characters of the Unicode property White_Space, by the length of their UTF-8.
abbrev space1 : ℕ → Bool
space1 b = (leb 9 b && leb b 13) || b == 32

abbrev space2 : ℕ → ℕ → Bool
space2 a b = a == 0xc2 && (b == 0x85 || b == 0xa0)

abbrev space3 : ℕ → ℕ → ℕ → Bool
space3 a b c =
    (a == 0xe1 && b == 0x9a && c == 0x80)
    || (a == 0xe2
        && b == 0x80
        && ((leb 0x80 c && leb c 0x8a) || c == 0xa8 || c == 0xa9 || c == 0xaf))
    || (a == 0xe2 && b == 0x81 && c == 0x9f)
    || (a == 0xe3 && b == 0x80 && c == 0x80)

unfoldable pub trim_start : List ℕ → List ℕ
trim_start [] = []
trim_start (a ∷ []) = if space1 a then [] else a ∷ []
trim_start (a ∷ b ∷ []) =
    let rest = trim_start (b ∷ []) in
    if space1 a then rest else if space2 a b then [] else a ∷ b ∷ []
trim_start (a ∷ b ∷ c ∷ text) =
    let rest1 = trim_start (b ∷ c ∷ text) in
    let rest2 = trim_start (c ∷ text) in
    let rest3 = trim_start text in
    if space1 a
    then rest1
    else if space2 a b
    then rest2
    else if space3 a b c
    then rest3
    else a ∷ b ∷ c ∷ text

-- The same from the end, on the bytes in reverse.
trim_back : List ℕ → List ℕ
trim_back [] = []
trim_back (c ∷ []) = if space1 c then [] else c ∷ []
trim_back (c ∷ b ∷ []) =
    let rest = trim_back (b ∷ []) in
    if space1 c then rest else if space2 b c then [] else c ∷ b ∷ []
trim_back (c ∷ b ∷ a ∷ text) =
    let rest1 = trim_back (b ∷ a ∷ text) in
    let rest2 = trim_back (a ∷ text) in
    let rest3 = trim_back text in
    if space1 c
    then rest1
    else if space2 b c
    then rest2
    else if space3 a b c
    then rest3
    else c ∷ b ∷ a ∷ text

unfoldable pub trim : List ℕ → List ℕ
unfolding trim_start trim_back
trim text = reverse (trim_back (reverse (trim_start text)))

abbrev is_digit : ℕ → Bool
is_digit b = leb b'0' b && leb b b'9'

-- The digits, as long as the value fits 16 bits.
u16_loop : ℕ → List ℕ → Option ℕ
u16_loop acc [] = some acc
u16_loop acc (b ∷ text) =
    let value = acc * 10 + (b - b'0') in
    let rest = u16_loop value text in if is_digit b && leb value 65535 then rest else none

after_sign : List ℕ → Option ℕ
unfolding u16_loop
after_sign [] = none
after_sign (b ∷ text) = u16_loop 0 (b ∷ text)

-- `text.parse::<u16>()`.
unfoldable pub parse_u16 : List ℕ → Option ℕ
unfolding after_sign
parse_u16 [] = none
parse_u16 (b ∷ text) = if b == b'+' then after_sign text else after_sign (b ∷ text)
