-- ===== src/Prelude/Text/Decimal.antt =====
-- `format!` of an unsigned integer, in base 10.
use Prim.Native.Nat.{ℕ, zero, suc, ◌+◌, ◌/◌, ◌%◌}
use mathlib.Core.Path.{◌≡◌, refl}
use mathlib.Core.Bool.{true, false}
use mathlib.Core.List.{[], ◌∷◌}
use teatro.Prelude.Tests.{ltb}
use teatro.Prelude.Text.{Text, codes}

-- The digits of `n` before `out`: one for each round, of which `n` needs at most `n + 1`.
abbrev print_from : ℕ → ℕ → Text → Text
print_from zero n out = out
print_from (suc fuel) n out = elim (ltb n 10) [
  | true ↦ (b'0' + n) ∷ out
  | false ↦ print_from fuel (n / 10) ((b'0' + n % 10) ∷ out)
]

unfoldable pub decimal : ℕ → Text
decimal n = print_from (suc n) n []

decimal_lem : decimal 1_205 ≡ codes "1205"
unfolding decimal
decimal_lem = refl
