-- ===== src/Std/Str/Split.antt =====
-- `str::find` and `str::split` on texts that are joined by a separator, as
-- websocket/src/http/response.rs uses them.
use websocket_std.Prelude.{
  ℕ, ◌+◌, ◌≡◌, ◌≢◌, refl, ap, ◌∙◌, List, [], ◌∷◌, ◌++◌, append_assoc, append-nil, length,
  length-append, Option, none, some, true, false, ◌==◌, All, arith,
}
use websocket_std.Std.Str.{find, starts_with, split, split_loop, next}

-- The parts with the separator between them.
abbrev pub behind : List ℕ → List (List ℕ) → List ℕ
behind sep [] = []
behind sep (part ∷ parts) = sep ++ (part ++ behind sep parts)

abbrev pub joined : List ℕ → List ℕ → List (List ℕ) → List ℕ
joined sep first parts = first ++ behind sep parts

-- No byte of the text starts a separator.
abbrev pub Without : ℕ → List ℕ → Type 0
Without p text = All (λ b. b ≢ p) text

module _ (p : ℕ) (ps : List ℕ) where
  starts_with-ne : (b : ℕ) (text : List ℕ) → b ≢ p → starts_with (p ∷ ps) (b ∷ text) ≡ false
  unfolding starts_with
  starts_with-ne b text h = let no : (p == b) ≡ false = ground (arith, h) in rw no

  split_loop-Without :
      (part line text : List ℕ)
      → Without p line
      → split_loop (p ∷ ps) 0 part (line ++ text) ≡ split_loop (p ∷ ps) 0 (part ++ line) text
  unfolding split_loop
  split_loop-Without part [] text h = rw (append-nil part)
  split_loop-Without part (b ∷ line) text h =
      rw (starts_with-ne b (line ++ text) h.0)
        (split_loop-Without (part ++ b ∷ []) line text h.1 ∙ rw (append_assoc part (b ∷ []) line))

  module _
      (cuts : (part text : List ℕ)
        → split_loop (p ∷ ps) 0 part ((p ∷ ps) ++ text)
          ≡ part ∷ split_loop (p ∷ ps) 0 [] text) where
    split_loop-joined :
        (part first : List ℕ) (parts : List (List ℕ))
        → Without p first
        → All (Without p) parts
        → split_loop (p ∷ ps) 0 part (joined (p ∷ ps) first parts) ≡ (part ++ first) ∷ parts
    unfolding split_loop
    split_loop-joined part first [] h k = split_loop-Without part first [] h
    split_loop-joined part first (next_part ∷ parts) h k =
        split_loop-Without part first ((p ∷ ps) ++ joined (p ∷ ps) next_part parts) h
        ∙ cuts (part ++ first) (joined (p ∷ ps) next_part parts)
        ∙ ap (◌∷◌ (part ++ first)) (split_loop-joined [] next_part parts k.0 k.1)

abbrev pub crlf : List ℕ
crlf = 13 ∷ 10 ∷ []

abbrev pub space : List ℕ
space = 32 ∷ []

pub split-crlf :
    (first : List ℕ) (parts : List (List ℕ))
    → Without 13 first
    → All (Without 13) parts
    → split crlf (joined crlf first parts) ≡ first ∷ parts
unfolding split split_loop starts_with
split-crlf first parts h k = split_loop-joined 13 (10 ∷ []) (λ part text. refl) [] first parts h k

pub split-space :
    (first : List ℕ) (parts : List (List ℕ))
    → Without 32 first
    → All (Without 32) parts
    → split space (joined space first parts) ≡ first ∷ parts
unfolding split split_loop starts_with
split-space first parts h k = split_loop-joined 32 [] (λ part text. refl) [] first parts h k

-- One byte is found where it stands first.
pub find-byte :
    (p : ℕ) (line text : List ℕ)
    → Without p line
    → find (p ∷ []) (line ++ p ∷ text) ≡ some (length line)
unfolding find starts_with
find-byte p [] text h = let here : (p == p) ≡ true = ground arith in rw here refl
find-byte p (b ∷ line) text h =
    let no : (p == b) ≡ false = ground (arith, h) in
    rw (no, find-byte p line text h.1) (ap some (omega arith))

-- The end of the head of a message: the first empty line.
abbrev pub end_head : List ℕ
end_head = 13 ∷ 10 ∷ 13 ∷ 10 ∷ []

abbrev shifted : ℕ → Option ℕ → Option ℕ
shifted n none = none
shifted n (some i) = some (n + i)

find-Without :
    (line text : List ℕ) (i : ℕ)
    → Without 13 line
    → find end_head text ≡ some i
    → find end_head (line ++ text) ≡ some (length line + i)
unfolding find
find-Without [] text i h k = rw k (ap some (omega arith))
find-Without (b ∷ line) text i h k =
    rw (starts_with-ne 13 (10 ∷ 13 ∷ 10 ∷ []) b (line ++ text) h.0, find-Without line text i h.1 k)
      (ap some (omega arith))

-- A line that is not empty and has no CR.
abbrev pub Line : List ℕ → Type 0
Line line = (line ≢ []) × Without 13 line

find-crlf :
    (b : ℕ) (text : List ℕ)
    → b ≢ 13
    → find end_head (13 ∷ 10 ∷ b ∷ text) ≡ next (next (find end_head (b ∷ text)))
unfolding find starts_with
find-crlf b text h = let no : (13 == b) ≡ false = ground (arith, h) in rw no

-- A line behind a CRLF is passed.
find-Line :
    (line text : List ℕ) (i : ℕ)
    → Line line
    → find end_head text ≡ some i
    → find end_head (crlf ++ (line ++ text)) ≡ some (length (crlf ++ line) + i)
find-Line [] text i h k = absurd (h.0 refl)
find-Line (b ∷ line) text i h k =
    find-crlf b (line ++ text) h.1.0
    ∙ ap (λ o. next (next o)) (find-Without (b ∷ line) text i h.1 k)
    ∙ ap some (omega arith)

end_here : (rest : List ℕ) → find end_head (end_head ++ rest) ≡ some 0
unfolding find starts_with
end_here rest = refl

find-behind :
    (lines : List (List ℕ)) (rest : List ℕ)
    → All Line lines
    → find end_head (behind crlf lines ++ (end_head ++ rest)) ≡ some (length (behind crlf lines))
find-behind [] rest h = end_here rest
find-behind (line ∷ lines) rest h = rw (append_assoc line (behind crlf lines) (end_head ++ rest)) (
    find-Line line (behind crlf lines ++ (end_head ++ rest)) (length (behind crlf lines)) h.0
      (find-behind lines rest h.1)
    ∙ ap some (omega (arith, length-append line (behind crlf lines))))

-- The head of a message is what stands before its first empty line.
pub find-end_head :
    (first : List ℕ) (lines : List (List ℕ)) (rest : List ℕ)
    → Without 13 first
    → All Line lines
    → find end_head (joined crlf first lines ++ (end_head ++ rest))
      ≡ some (length (joined crlf first lines))
find-end_head first lines rest h k =
    rw (append_assoc first (behind crlf lines) (end_head ++ rest)) (
      find-Without first (behind crlf lines ++ (end_head ++ rest)) (length (behind crlf lines)) h
        (find-behind lines rest k)
      ∙ ap some (omega (arith, length-append first (behind crlf lines))))
