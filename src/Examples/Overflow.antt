-- ===== src/Examples/Overflow.antt =====
-- One above the greatest int.
use cheese_kakao_talk_bot.Prelude.{◌+◌, ◌%◌, ◌^◌, ◌≡◌}
use cheese_kakao_talk_bot.Humanizer.{max_int, saturating_add}
use cheese_kakao_talk_bot.Humanizer.Wraps.{saturating_add-wraps}

saturating_add-wraps_example : saturating_add max_int 1 ≡ (max_int + 1) % 2 ^ 64
saturating_add-wraps_example = saturating_add-wraps max_int 1
