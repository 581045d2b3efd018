-- ===== src/WsBasic/Frame/Masking.antt =====
-- The loop over the payload in `Frame::serialize` (websocket/src/ws_basic/frame.rs).
use mathlib.Core.Option
use websocket_std.Prelude.{
  ℕ, zero, suc, ◌+◌, ◌%◌, ◌<◌, ◌≡◌, refl, ap, List, [], ◌∷◌, length, get_or, get_elem?, leb,
  if◌then◌else◌, bit_xor, arith,
}
use websocket_std.Prelude.Bits.{bit_xor_twice, bit_xor_lt}
use websocket_std.Core.Binary.{IsByte, IsBytes}
use websocket_std.WsBasic.Mask.{Mask}
use websocket_std.WsBasic.Frame.{mask_loop}

abbrev next_index : Mask → ℕ → ℕ
next_index m i = if leb (length m) (i + 1) then 0 else i + 1

get_or-IsByte : (m : List ℕ) (i : ℕ) → IsBytes m → IsByte (get_or m i 0)
get_or-IsByte [] i h = omega arith
get_or-IsByte (x ∷ m) zero h = h.0
get_or-IsByte (x ∷ m) (suc i) h = get_or-IsByte m i h.1

pub length-mask_loop : (m : Mask) (i : ℕ) (bs : List ℕ) → length (mask_loop m i bs) ≡ length bs
unfolding mask_loop
length-mask_loop m i [] = refl
length-mask_loop m i (b ∷ bs) = ap suc (length-mask_loop m (next_index m i) bs)

pub mask_loop-IsBytes :
    (m : Mask) (i : ℕ) (bs : List ℕ) → IsBytes m → IsBytes bs → IsBytes (mask_loop m i bs)
unfolding mask_loop
mask_loop-IsBytes m i [] hm hb = tt
mask_loop-IsBytes m i (b ∷ bs) hm hb =
    (bit_xor_lt _ b (get_or-IsByte m i hm) hb.0, mask_loop-IsBytes m (next_index m i) bs hm hb.1)

-- Masking the masked bytes with the same key gives the bytes back, wherever in the key it starts.
pub mask_loop_twice :
    (m : Mask) (i : ℕ) (bs : List ℕ)
    → IsBytes m
    → IsBytes bs
    → mask_loop m i (mask_loop m i bs) ≡ bs
unfolding mask_loop
mask_loop_twice m i [] hm hb = refl
mask_loop_twice m i (b ∷ bs) hm hb =
    rw (bit_xor_twice (get_or m i 0) b (get_or-IsByte m i hm) hb.0)
      (ap (◌∷◌ b) (mask_loop_twice m (next_index m i) bs hm hb.1))

-- Octet `k` of the masked payload is octet `k` of the payload, `^` octet `k mod 4` of the key.
pub get_elem?-mask_loop :
    (m : Mask) (i : ℕ) (bs : List ℕ) (k : ℕ)
    → length m ≡ 4
    → i < 4
    → get_elem? (mask_loop m i bs) k
      ≡ Option.map (λ b. bit_xor b (get_or m ((i + k) % 4) 0)) (get_elem? bs k)
unfolding mask_loop
get_elem?-mask_loop m i [] k hm hi = refl
get_elem?-mask_loop m i (b ∷ bs) zero hm hi = let e : (i + 0) % 4 ≡ i = omega arith in rw e
get_elem?-mask_loop m i (b ∷ bs) (suc k) hm hi =
    let j : ℕ = next_index m i in
    let lt : j < 4 = ground arith in
    let e : (i + suc k) % 4 ≡ (j + k) % 4 = ground arith in
    rw e (get_elem?-mask_loop m j bs k hm lt)
