-- ===== src/Integers.antt =====
-- Go's `int` as an integer: sums and differences. Nothing here comes near 64 bits.
use cheese_kakao_talk_bot.Prelude.{ℕ, zero, suc, ◌+◌, ◌-◌, leb, if◌then◌else◌}
use cheese_kakao_talk_bot.Presets.Types.{ℤ, pos, negsuc}

-- m - n
abbrev pub from_difference : ℕ → ℕ → ℤ
from_difference m n = if leb n m then pos (m - n) else negsuc (n - m - 1)

infixl 6 ◌+ℤ◌ ◌-ℤ◌
abbrev pub ◌+ℤ◌ : ℤ → ℤ → ℤ
pos m +ℤ pos n = pos (m + n)
pos m +ℤ negsuc n = from_difference m (n + 1)
negsuc m +ℤ pos n = from_difference n (m + 1)
negsuc m +ℤ negsuc n = negsuc (m + n + 1)

abbrev pub negate : ℤ → ℤ
negate (pos zero) = pos 0
negate (pos (suc n)) = negsuc n
negate (negsuc n) = pos (n + 1)

abbrev pub ◌-ℤ◌ : ℤ → ℤ → ℤ
a -ℤ b = a +ℤ negate b
