-- ===== src/Sync/Channel/Spells.antt =====
-- The frames that `WSClient::send` (websocket/src/sync/client.rs) makes of a text, as a server reads
-- them.
use websocket_std.Prelude.{
  ℕ, zero, suc, ◌+◌, ◌≤◌, ◌≡◌, ◌==◌, ◌≢◌, refl, ap, ◌∙◌, List, [], ◌∷◌, ◌++◌, append_assoc,
  append-nil, length, length-append, Option, none, some, Bool, true, false, if◌then◌else◌, map,
  arith, bit_or,
}
use websocket_std.Core.Binary.{IsBytes, IsVec}
use websocket_std.WsBasic.Mask.{Mask, IsMask}
use websocket_std.WsBasic.Header.{fin, noflag, text, continuation}
use websocket_std.WsBasic.Frame.{
  DataFrame, Frame, data_frame, new_data, kind, data_kind, serialize, get_mask,
}
use websocket_std.WsBasic.Frame.Server.{server_read, server_read-serialize}
use websocket_std.WsBasic.Frame.Messages.{all_bytes, message, opening, prepend, Spell}
use websocket_std.Sync.State.{Event, websocket_data}
use websocket_std.Sync.Send.Fragments.{Fragments}

abbrev code_of : Bool → ℕ
code_of first = if first then text else continuation

-- A frame as `DataFrame::new` makes it.
built :
    (d : DataFrame) (flag code : ℕ) (m : Mask)
    → d.header.code ≡ code
    → d.header.flag ≡ flag
    → d.header.mask_key ≡ some m
    → d.header.payload_len ≡ length d.payload
    → d ≡ new_data flag code d.payload true none m
unfolding new_data get_mask
built d flag code m c f k n = rw (← c, ← f, ← k, ← n)

All-append_left : (xs ys : List ℕ) → IsBytes (xs ++ ys) → IsBytes xs
All-append_left [] ys h = tt
All-append_left (x ∷ xs) ys h = (h.0, All-append_left xs ys h.1)

All-append_right : (xs ys : List ℕ) → IsBytes (xs ++ ys) → IsBytes ys
All-append_right [] ys h = h
All-append_right (x ∷ xs) ys h = All-append_right xs ys h.1

-- The first octet of the frame tells whether the message ends with it.
first_octet : Bool → Bool → ℕ
first_octet first last = if last then 128 + opening first else opening first

bit_or_lem :
    (first last : Bool)
    → bit_or (if last then fin else noflag) (code_of first) ≡ first_octet first last
unfolding first_octet
bit_or_lem true true = refl
bit_or_lem true false = refl
bit_or_lem false true = refl
bit_or_lem false false = refl

kind-code_of :
    (first : Bool) (d : DataFrame) → d.header.code ≡ code_of first → kind (data_frame d) ≡ data_kind
unfolding kind
kind-code_of true d code = rw code
kind-code_of false d code = rw code

-- What is read when the frame has been.
read_on : Bool → ℕ → List ℕ → Option (List ℕ × List ℕ) → List ℕ → Option (List ℕ × List ℕ)
read_on first octet payload more rest =
    if octet == 128 + opening first
    then some (payload, rest)
    else if octet == opening first
    then prepend payload more
    else none

read_on-first_octet :
    (first last : Bool) (payload rest : List ℕ) (more : Option (List ℕ × List ℕ))
    → read_on first (first_octet first last) payload more rest
      ≡ (if last then some (payload, rest) else prepend payload more)
unfolding read_on first_octet
read_on-first_octet true true payload rest more = refl
read_on-first_octet true false payload rest more = refl
read_on-first_octet false true payload rest more = refl
read_on-first_octet false false payload rest more = refl

module _ (d : DataFrame) (first last : Bool) (m : Mask) (mask : IsMask m)
    (code : d.header.code ≡ code_of first) (flag : d.header.flag ≡ (if last then fin else noflag))
    (key : d.header.mask_key ≡ some m) (len : d.header.payload_len ≡ length d.payload)
    (bytes : IsBytes d.payload) (vec : IsVec d.payload) where
  server_read-built :
      (rest : List ℕ)
      → server_read (serialize (data_frame d) ++ rest)
        ≡ some (record { first = first_octet first last; payload = d.payload; rest = rest })
  server_read-built rest =
      ap (λ (e : DataFrame). server_read (serialize (data_frame e) ++ rest))
        (built d (if last then fin else noflag) (code_of first) m code flag key len)
      ∙ server_read-serialize (if last then fin else noflag) (code_of first) m d.payload rest mask
          bytes vec
      ∙ rw (bit_or_lem first last)

  message-built :
      (fuel : ℕ) (rest : List ℕ)
      → message (suc fuel) first (serialize (data_frame d) ++ rest)
        ≡ (if last then some (d.payload, rest) else prepend d.payload (message fuel false rest))
  unfolding read_on
  message-built fuel rest =
      rw (message, server_read-built rest)
        (read_on-first_octet first last d.payload rest (message fuel false rest))

  reads_last :
      last ≡ true
      → (fuel : ℕ) (rest : List ℕ) → 1 ≤ fuel
      → message fuel first ((serialize (data_frame d) ++ []) ++ rest) ≡ some (d.payload, rest)
  reads_last whole zero rest enough = absurd (omega arith)
  reads_last whole (suc fuel) rest enough = rw append-nil (message-built fuel rest ∙ rw whole)

  Spell-last : last ≡ true → Spell first d.payload (data_frame d ∷ [])
  Spell-last whole = ((kind-code_of first d code, tt), reads_last whole)

  reads_more :
      (text : List ℕ) (fs : List Frame)
      → last ≡ false
      → Spell false text fs
      → (fuel : ℕ) (rest : List ℕ) → suc (length fs) ≤ fuel
      → message fuel first ((serialize (data_frame d) ++ all_bytes fs) ++ rest)
        ≡ some (d.payload ++ text, rest)
  reads_more text fs part spell zero rest enough = absurd (omega arith)
  reads_more text fs part spell (suc fuel) rest enough =
      rw append_assoc
        (message-built fuel (all_bytes fs ++ rest) ∙ rw (part, spell.1 fuel rest (omega arith)))

  Spell-more :
      (text : List ℕ) (fs : List Frame)
      → last ≡ false
      → Spell false text fs
      → Spell first (d.payload ++ text) (data_frame d ∷ fs)
  Spell-more text fs part spell =
      ((kind-code_of first d code, spell.0), reads_more text fs part spell)

front_nil : (xs ys : List ℕ) → [] ≡ xs ++ ys → xs ≡ []
front_nil [] ys h = refl
front_nil (x ∷ xs) ys h = cc

pub Fragments-nil :
    (size : ℕ) (first : Bool) (events : List Event) → Fragments size first [] events → events ≡ []
Fragments-nil size first [] h = refl
Fragments-nil size first (event ∷ events) (d, rest, e, split, full, _, _, _, _, _, _) =
    absurd (full (front_nil d.payload rest split))

-- The frames of a text that is not empty spell it.
pub Fragments-Spell :
    (size : ℕ) (first : Bool) (payload : List ℕ) (events : List Event)
    → IsBytes payload
    → IsVec payload
    → payload ≢ []
    → Fragments size first payload events
    → (fs : List Frame) × (events ≡ map websocket_data fs) × Spell first payload fs
Fragments-Spell size first payload [] bytes vec full h = absurd (full h)
Fragments-Spell size first payload (event ∷ events) bytes vec full
      (d, [], e, split, _, _, code, flag, (m, key, mask), len, later) =
    let whole : payload ≡ d.payload = split ∙ append-nil d.payload in
    (
      data_frame d ∷ [],
      rw (e, Fragments-nil size false events later),
      rw whole (
          Spell-last d first true m mask code flag key len (rw whole at bytes) (rw whole at vec)
            refl),
    )
Fragments-Spell size first payload (event ∷ events) bytes vec full
      (d, r ∷ rs, e, split, _, _, code, flag, (m, key, mask), len, later) =
    let all : IsBytes (d.payload ++ r ∷ rs) = rw split at bytes in
    let fits : IsVec (d.payload ++ r ∷ rs) = rw split at vec in
    let (fs, events_are, spell) =
      Fragments-Spell size false (r ∷ rs) events (All-append_right d.payload (r ∷ rs) all)
        (omega (arith, length-append d.payload (r ∷ rs))) (λ p. cc) later in
    (
      data_frame d ∷ fs,
      rw (e, events_are),
      rw split (
          Spell-more d first false m mask code flag key len (All-append_left d.payload (r ∷ rs) all)
            (omega (arith, length-append d.payload (r ∷ rs))) (r ∷ rs) fs refl spell),
    )
