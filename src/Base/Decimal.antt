-- ===== src/Base/Decimal.antt =====
-- fmt's %d on a uint64, which has at most 20 digits.
use Prim.Native.Nat.{ℕ, zero, suc, ◌+◌, ◌/◌, ◌%◌}
use mathlib.Core.List.{[], ◌∷◌}
use hot_take.Base.Tests.{eqb, if◌then◌else◌}
use hot_take.Base.Strings.{Text}

-- The digits of `n` in front of `out`, with fuel for the digits left.
unfoldable pub digits : ℕ → ℕ → Text → Text
digits zero n out = out
digits (suc fuel) n out =
    let rest = digits fuel (n / 10) ((b'0' + n % 10) ∷ out) in if eqb n 0 then out else rest

unfoldable pub decimal : ℕ → Text
unfolding digits
decimal n = if eqb n 0 then b'0' ∷ [] else digits 20 n []
