-- ===== src/Prelude/Strings/Decimal.antt =====
-- Numbers in decimal, read back.
use Prim.Native.Nat.{ℕ, zero, suc, ◌+◌, ◌-◌, ◌*◌, ◌/◌, ◌%◌, ◌<◌}
use mathlib.Core.Path.{◌≡◌, ◌∙◌, ap}
use mathlib.Core.Bool.{false}
use mathlib.Core.Option.{Option, some}
use mathlib.Core.List.{[], ◌∷◌}
use native.Mathlib.Omega.{arith}
use mobile_agent.Prelude.Tests.{ltb, if_cases}
use mobile_agent.Prelude.Strings.{Text, decimal, decimal_rec}

-- the value of digits after those of `n`
value : ℕ → Text → ℕ
value n [] = n
value n (c ∷ t) = value (n * 10 + (c - b'0')) t

unfoldable pub parse_decimal : Text → Option ℕ
unfolding value
parse_decimal t = some (value 0 t)

value-decimal_rec :
    (fuel n : ℕ) (acc : Text) → n < fuel → value 0 (decimal_rec fuel n acc) ≡ value n acc
unfolding value decimal_rec
value-decimal_rec zero n acc h = absurd (omega arith)
value-decimal_rec (suc fuel) n acc h =
    if_cases (λ t. value 0 t ≡ value n acc) (ltb n 10) _ _
      (λ _. ap (λ m. value m acc) (omega arith))
      (λ e.
        value-decimal_rec fuel (n / 10) ((n % 10 + b'0') ∷ acc) (smaller e)
        ∙ ap (λ m. value m acc) (omega arith))
  where
    smaller : ltb n 10 ≡ false → n / 10 < fuel
    smaller e = ground arith

pub parse_decimal-decimal : (n : ℕ) → parse_decimal (decimal n) ≡ some n
unfolding parse_decimal decimal
parse_decimal-decimal n = ap some (value-decimal_rec (suc n) n [] (omega arith))
