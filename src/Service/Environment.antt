-- ===== src/Service/Environment.antt =====
-- What the single-player service is run with: the libraries and tables that are no part of the
-- repository, its configuration, and what a call finds at its time.
use Prim.Native.Char.{Char}
use cheese_kakao_talk_bot.Prelude.{ℕ, String, List}
use cheese_kakao_talk_bot.ChessLib.{ChessLib}
use cheese_kakao_talk_bot.Presets.Types.{ℤ, Floats}
use cheese_kakao_talk_bot.Presets.Registry.{Styles}
use cheese_kakao_talk_bot.Service.Types.{Config, Evaluation}

-- The machine's float64 arithmetic; `round` is int(math.Round(x)).
pub record Maths : Type 1 where
  pub F : Type 0
  pub of_int : ℤ → F
  pub ratio : ℕ → ℕ → F
  pub plus : F → F → F
  pub minus : F → F → F
  pub times : F → F → F
  pub over : F → F → F
  pub pow : F → F → F
  pub round : F → ℤ

-- `beyond` is unicode.ToLower past ASCII; `orbit` gives each character past ASCII one of those
-- that strings.EqualFold takes for the same; `hash` is SHA-256, in hexadecimal digits.
pub record Environment : Type 1 where
  pub chess : ChessLib
  pub floats : Floats
  pub maths : Maths
  pub beyond : Char → Char
  pub orbit : Char → Char
  pub hash : String → String
  pub styles : Styles
  pub config : Config

-- The clock, the next UUID, and the engine (Evaluator), which is asked for a preset and the moves.
-- A call reads the clock several times: here it is one instant.
pub record Moment : Type 0 where
  pub now : ℕ
  pub uuid : String
  pub evaluate : String → List String → Evaluation
