-- ===== src/Humanizer.antt =====
-- saturatingAdd of internal/chess/humanizer.go, on a machine whose int has 64 bits. An int is its
-- bits, a number below 2 ^ 64, in two's complement.
pub mod Wraps
pub mod Select
pub mod Primary
use cheese_kakao_talk_bot.Prelude.{ℕ, ◌+◌, ◌%◌, ◌^◌, Bool, ltb, if◌then◌else◌}

-- a < b for the bits of two int64
abbrev pub int_less : ℕ → ℕ → Bool
int_less a b = ltb ((a + 2 ^ 63) % 2 ^ 64) ((b + 2 ^ 63) % 2 ^ 64)

abbrev pub max_int : ℕ
max_int = 9223372036854775807

abbrev pub min_int : ℕ
min_int = 9223372036854775808

unfoldable pub saturating_add : ℕ → ℕ → ℕ
saturating_add a b =
    let sum = (a + b) % 2 ^ 64 in
    if int_less max_int sum then max_int else if int_less sum min_int then min_int else sum
