-- ===== src/Prelude/Decimal.antt =====
-- Unsigned integers in decimal: `Display` and `FromStr` of `u64` and `u16`.
use Prim.Native.Nat.{ℕ, zero, suc, ◌+◌, ◌-◌, ◌*◌, ◌/◌, ◌%◌, ◌^◌, ◌≤◌, ◌<◌}
use mathlib.Core.Path.{◌≡◌, refl, sym, ap, ◌∙◌}
use mathlib.Core.Logic.{inl, inr}
use mathlib.Core.Bool.{◌||◌}
use mathlib.Core.Option.{Option, none, some}
use mathlib.Core.List.{[], ◌∷◌}
use native.Mathlib.Omega.{arith}
use save.Prelude.Tests.{◌==◌, ltb, if◌then◌else◌, Bool-cases}
use save.Prelude.Text.{Bytes}

unfoldable pub display_onto : ℕ → ℕ → Bytes → Bytes
display_onto zero n out = out
display_onto (suc fuel) n out =
    let rest = display_onto fuel (n / 10) ((b'0' + n % 10) ∷ out) in
    if ltb n 10 then (b'0' + n % 10) ∷ out else rest

-- Twenty digits are enough for 64 bits.
unfoldable pub display : ℕ → Bytes
unfolding display_onto
display n = display_onto 20 n []

unfoldable pub scan_digits : ℕ → Bytes → ℕ → Option ℕ
scan_digits max [] n = some n
scan_digits max (c ∷ s) n =
    let m = n * 10 + (c - b'0') in
    let rest = scan_digits max s m in
    if ltb c b'0' || ltb b'9' c then none else if ltb max m then none else rest

unfoldable pub scan_some : ℕ → Bytes → Option ℕ
unfolding scan_digits
scan_some max [] = none
scan_some max (c ∷ s) = scan_digits max (c ∷ s) 0

-- One plus sign may stand before the digits.
unfoldable pub parse : ℕ → Bytes → Option ℕ
unfolding scan_some
parse max [] = none
parse max (c ∷ s) = if c == b'+' then scan_some max s else scan_some max (c ∷ s)

abbrev pub max_u64 : ℕ
max_u64 = 2 ^ 64 - 1

abbrev pub max_u16 : ℕ
max_u16 = 2 ^ 16 - 1

abbrev power : ℕ → ℕ
power zero = 1
power (suc n) = 10 * power n

scan-display_onto :
    (max fuel n : ℕ) (out : Bytes)
    → n < power fuel
    → n ≤ max
    → 1 ≤ fuel
    → scan_digits max (display_onto fuel n out) 0 ≡ scan_digits max out n
unfolding scan_digits display_onto
scan-display_onto max zero n out small fits room = absurd (omega arith)
scan-display_onto max (suc zero) n out small fits room = ground arith
scan-display_onto max (suc (suc fuel)) n out small fits room = elim (Bool-cases (ltb n 10)) [
  | inl e ↦ ground arith
  | inr e ↦ rw e (
      scan-display_onto max (suc fuel) (n / 10) ((b'0' + n % 10) ∷ out) (omega arith) (omega arith)
        (omega arith)
      ∙ ground arith)
]

display_onto-head :
    (fuel n : ℕ) (out : Bytes)
    → (c : ℕ) × (s : Bytes) × (display_onto (suc fuel) n out ≡ c ∷ s) × (b'0' ≤ c)
unfolding display_onto
display_onto-head zero n out = (b'0' + n % 10, out, ground arith, omega arith)
display_onto-head (suc fuel) n out = elim (Bool-cases (ltb n 10)) [
  | inl e ↦ (b'0' + n % 10, out, rw e refl, omega arith)
  | inr e ↦
      let (c, s, h, digit) = display_onto-head fuel (n / 10) ((b'0' + n % 10) ∷ out) in
      (c, s, rw e h, digit)
]

parse_digit : (max c : ℕ) (s : Bytes) → b'0' ≤ c → parse max (c ∷ s) ≡ scan_digits max (c ∷ s) 0
unfolding parse scan_some
parse_digit max c s h = ground arith

-- A number that fits is read back from its digits.
pub parse-display : (max n : ℕ) → n ≤ max → max ≤ max_u64 → parse max (display n) ≡ some n
unfolding display
parse-display max n fits bound =
    let (c, s, e, digit) = display_onto-head 19 n [] in
    ap (parse max) e
    ∙ parse_digit max c s digit
    ∙ ap (λ (b : Bytes). scan_digits max b 0) (sym e)
    ∙ scan-display_onto max 20 n [] (omega arith) fits (omega arith)
    ∙ unfold scan_digits in refl
