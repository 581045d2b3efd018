-- ===== src/WsBasic/Bitflags.antt =====
-- The crate `bitflags` (2.3.2), which header.rs and status_code.rs use to declare sets of flags.
-- A value of such a set is its bits. `from_bits` is the crate's: its documentation says that it
-- gives the value of those bits, or nothing when a bit is set which no flag of the set has.
use websocket_std.Prelude.{
  ℕ, ◌≡◌, refl, List, [], ◌∷◌, Option, none, some, ◌==◌, if◌then◌else◌, bit_and, bit_or,
}

pub record Bitflags : Type 0 where
  pub from_bits : ℕ → ℕ → Option ℕ
  pub from_bits_lem :
      (all bits : ℕ) → from_bits all bits ≡ (if bit_and bits all == bits then some bits else none)

-- The bits of all the flags of a set.
unfoldable pub union : List ℕ → ℕ
union [] = 0
union (f ∷ fs) = bit_or f (union fs)

-- The documented behaviour can be met.
abbrev pub documented : Bitflags
documented = record {
  from_bits = λ all bits. if bit_and bits all == bits then some bits else none;
  from_bits_lem = λ all bits. refl;
}
