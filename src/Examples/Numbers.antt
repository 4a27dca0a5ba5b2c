-- ===== src/Examples/Numbers.antt =====
-- A way to write integers as texts, for the runs of the other modules.
use Prim.Native.Char.{code}
use Prim.Native.String.{[], ◌∷◌}
use cli_plugin_gcp.Common.{ℕ, zero, suc, ◌≡◌, refl, ap, String, if◌then◌else◌, nat_beq}
use cli_plugin_gcp.Common.Int.{ℤ, pos, negsuc}

unary : ℕ → String
unary zero = []
unary (suc n) = "x" ∷ unary n

unfoldable pub count : String → ℕ
count [] = 0
count (c ∷ s) = suc (count s)

count-unary : (n : ℕ) → count (unary n) ≡ n
unfolding unary count
count-unary zero = refl
count-unary (suc n) = ap suc (count-unary n)

-- a number by as many marks, behind its sign
pub number : ℤ → String
number (pos n) = "+" ∷ unary n
number (negsuc n) = "-" ∷ unary n

pub value : String → ℤ
value [] = pos 0
value (c ∷ s) = if nat_beq (code c) b'-' then negsuc (count s) else pos (count s)

pub value-number : (n : ℤ) → value (number n) ≡ n
unfolding value number
value-number (pos n) = ap pos (count-unary n)
value-number (negsuc n) = ap negsuc (count-unary n)
