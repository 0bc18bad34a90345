-- ===== src/Humanizer/Wraps.antt =====
-- saturatingAdd (internal/chess/humanizer.go) never saturates.
use cheese_kakao_talk_bot.Prelude.{ℕ, ◌+◌, ◌%◌, ◌^◌, ◌≡◌, refl, false, arith}
use cheese_kakao_talk_bot.Humanizer.{int_less, max_int, min_int, saturating_add}

-- No int is above the greatest or below the least.
max_int-greatest : (a : ℕ) → int_less max_int a ≡ false
max_int-greatest a = ground arith

min_int-least : (a : ℕ) → int_less a min_int ≡ false
min_int-least a = ground arith

-- The sum of two ints wraps around: saturatingAdd gives the sum of the bits modulo 2 ^ 64, whether
-- it overflows or not.
pub saturating_add-wraps : (a b : ℕ) → saturating_add a b ≡ (a + b) % 2 ^ 64
unfolding saturating_add
saturating_add-wraps a b =
    rw (max_int-greatest ((a + b) % 2 ^ 64), min_int-least ((a + b) % 2 ^ 64)) refl
