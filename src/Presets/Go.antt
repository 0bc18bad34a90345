-- ===== src/Presets/Go.antt =====
-- internal/chess/limits.go: the UCI search command of a preset.
use Prim.Native.Char.{Char}
use cheese_kakao_talk_bot.Prelude.{String, List, [], ◌∷◌, ◌++◌, none, some, if◌then◌else◌}
use cheese_kakao_talk_bot.Presets.Types.{
  ℤ, less, pos, Floats, DifficultyPreset, PresetError, no_limits,
}
use cheese_kakao_talk_bot.Presets.Validate.{Failure, validate_preset}

pub data GoCommand : Type 0 where
  refused : PresetError → GoCommand
  command : List String → GoCommand

abbrev pub need_limits : String → List String → GoCommand
need_limits name [] = refused (no_limits name)
need_limits name (a ∷ rest) = command ("go" ∷ a ∷ rest)

abbrev unless_invalid : Failure → GoCommand → GoCommand
unless_invalid (some e) c = refused e
unless_invalid none c = c

-- `itoa` is strconv.Itoa.
module _ (beyond : Char → Char) (itoa : ℤ → String) (X : Floats) where
  abbrev limit : String → ℤ → List String
  limit word n = if less (pos 0) n then word ∷ itoa n ∷ [] else []

  unfoldable pub limits : DifficultyPreset X → List String
  limits p =
      limit "depth" p.depth_cap ++ limit "movetime" p.move_time_millis ++ limit "nodes" p.node_cap

  unfoldable pub build_go_command : DifficultyPreset X → GoCommand
  unfolding limits validate_preset
  build_go_command p = unless_invalid (validate_preset beyond X p) (need_limits p.name (limits p))
