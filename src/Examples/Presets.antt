-- ===== src/Examples/Presets.antt =====
-- Presets at concrete inputs, with fractions that count hundredths in place of `float64`.
use cheese_kakao_talk_bot.Prelude.{
  if◌then◌else◌, ℕ, ◌+◌, ◌-◌, ◌*◌, ◌/◌, ◌^◌, String, ◌≡◌, ◌≢◌, refl, false, List, [], ◌∷◌, Option,
  none, some, ltb, nat_eq,
}
use cheese_kakao_talk_bot.Text.{trim_space, to_lower}
use cheese_kakao_talk_bot.Presets.Types.{
  ℤ, negsuc, pos, Floats, DifficultyPreset, OpeningCatalogConfig, index_out_of_range,
}
use cheese_kakao_talk_bot.Presets.Tokens.{normalize_catalog_tokens}
use cheese_kakao_talk_bot.Presets.Validate.{
  check_keys, validate_preset, check, ◌then◌, validate_opening_preferences,
  validate_opening_catalog,
}
use cheese_kakao_talk_bot.Presets.Defaults.{default_presets, empty_catalog}
use cheese_kakao_talk_bot.Presets.Registry.{StyleGroup, loaded}
use cheese_kakao_talk_bot.Presets.Go.{build_go_command}
use cheese_kakao_talk_bot.Presets.Commands.{SaysLimits, build_go_command-limits}
use cheese_kakao_talk_bot.Presets.Laws.{normalize_catalog_tokens-check_keys}
use cheese_kakao_talk_bot.Presets.Bounds.{validate_preset-no_panic}
use cheese_kakao_talk_bot.Presets.Safe.{
  Edit, set_preferences, set_catalog, set_style, edits, IsValid, edits-IsValid,
}
use cheese_kakao_talk_bot.Examples.Chess.{same_char}

abbrev pub hundredths : Floats
hundredths = record {
  F = ℕ;
  decimal = λ n k. n * 100 / 10 ^ k;
  plus = λ a b. a + b;
  minus = λ a b. a - b;
  times = λ a b. a * b / 100;
  below = ltb;
  same = nat_eq;
  is_nan = λ a. false;
  is_inf = λ a. false;
}

normalize_catalog_tokens-check_keys_example :
    check_keys same_char 0 []
      (normalize_catalog_tokens same_char (" B20 " ∷ "b20" ∷ "" ∷ "C60" ∷ []))
    ≡ none
normalize_catalog_tokens-check_keys_example =
    normalize_catalog_tokens-check_keys same_char (" B20 " ∷ "b20" ∷ "" ∷ "C60" ∷ [])

-- Two choices and one weight.
abbrev short_preset : DifficultyPreset hundredths
short_preset = record {
  name = "short";
  skill_level = pos 5;
  threads = pos 2;
  hash_mb = pos 16;
  move_time_millis = pos 100;
  node_cap = pos 0;
  depth_cap = pos 8;
  multi_pv = pos 3;
  primary_choices = pos 2;
  candidate_weights = 100 ∷ [];
  eval_noise = pos 0;
  opening_preferences = [];
  opening_catalog = empty_catalog;
}

validate_preset-no_panic_example :
    validate_preset same_char hundredths short_preset ≢ some index_out_of_range
validate_preset-no_panic_example = validate_preset-no_panic same_char hundredths short_preset

-- The presets of the program are valid.
pub default_presets-IsValid : IsValid same_char hundredths (default_presets hundredths)
unfolding validate_preset trim_space to_lower ◌then◌ check validate_opening_preferences
    validate_opening_catalog
default_presets-IsValid = (refl, (refl, (refl, (refl, (refl, (refl, (refl, (refl, tt))))))))

abbrev catalog : OpeningCatalogConfig
catalog = record empty_catalog { keys = "B20" ∷ " b20" ∷ []; color = "White" }

abbrev find_group : String → Option StyleGroup
find_group t = some (record { key = t; ecos = "C60" ∷ " C61 " ∷ [] })

abbrev some_edits : List (Edit hundredths)
some_edits =
    set_catalog "level1" catalog
    ∷ set_style (loaded find_group) "level2" "ruy-lopez, open"
    ∷ set_style (loaded find_group) "level1" " "
    ∷ set_preferences "level9" []
    ∷ []

edits-IsValid_example :
    IsValid same_char hundredths
      (edits same_char hundredths some_edits (default_presets hundredths))
edits-IsValid_example =
    edits-IsValid same_char hundredths some_edits (default_presets hundredths)
      default_presets-IsValid

-- The decimal of the numbers that the example has.
abbrev decimal : ℤ → String
decimal (pos n) = if nat_eq n 5 then "5" else "20"
decimal (negsuc n) = "-1"

abbrev pub level_one : DifficultyPreset hundredths
level_one = record short_preset { depth_cap = pos 5; candidate_weights = 60 ∷ 40 ∷ [] }

pub level_one-valid : validate_preset same_char hundredths level_one ≡ none
unfolding validate_preset trim_space to_lower ◌then◌ check validate_opening_preferences
    validate_opening_catalog
level_one-valid = refl

build_go_command-limits_example :
    SaysLimits same_char decimal hundredths level_one
      (build_go_command same_char decimal hundredths level_one)
build_go_command-limits_example =
    build_go_command-limits same_char decimal hundredths level_one level_one-valid
