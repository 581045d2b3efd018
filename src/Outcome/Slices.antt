-- ===== src/Outcome/Slices.antt =====
-- A slice of three parts that are joined is the middle one.
use websocket_std.Prelude.{
  ℕ, ◌+◌, ◌-◌, ◌≤◌, ◌≡◌, refl, ap, ◌∙◌, List, ◌++◌, length, length-append, drop_exact, take_exact,
  arith,
}
use websocket_std.Outcome.{ok, slice, slice-ok}

pub slice-part {ℓ} :
    (F : Type 0) {A : Type ℓ} (from to : ℕ) (before middle after xs : List A)
    → xs ≡ before ++ (middle ++ after)
    → length before ≡ from
    → to ≡ from + length middle
    → slice {F = F} from to xs ≡ ok middle
slice-part F from to before middle after xs e hb ht =
    let fits : to ≤ length (before ++ (middle ++ after)) =
      omega (arith, length-append before (middle ++ after), length-append middle after) in
    let n : to - from ≡ length middle = omega arith in
    ap (slice from to) e
    ∙ slice-ok F from to (before ++ (middle ++ after)) (omega arith) fits
    ∙ rw (
      n,
      drop_exact from before (middle ++ after) hb,
      take_exact (length middle) middle after refl,
    )
