-- ===== src/Service/Types.antt =====
-- The data of internal/service/chess/service.go: sessions, what it answers, and its errors. Board
-- images and material scores are left out of the answers.
use cheese_kakao_talk_bot.Prelude.{ℕ, String, Bool, List, Option}
use cheese_kakao_talk_bot.Presets.Types.{ℤ, PresetError}
use cheese_kakao_talk_bot.ChessLib.{Outcome}
use cheese_kakao_talk_bot.Memrepo.{ChessProfile}

pub record SessionMeta : Type 0 where
  pub session_id : String
  pub room : String
  pub sender : String

pub record SessionIdentity : Type 0 where
  pub session_id : String
  pub room_hash : String
  pub player_hash : String

-- What the service keeps of its configuration; the time to live of a session is the cache's.
pub record Config : Type 0 where
  pub default_preset : String
  pub history_limit : ℕ
  pub allowed_rooms : List String
  pub default_opening_style : String

pub record SessionPayload : Type 0 where
  pub session_uuid : String
  pub player_hash : String
  pub room_hash : String
  pub player_name : String
  pub preset : String
  pub moves : List String
  pub started_at : ℕ
  pub updated_at : ℕ
  pub auto_assist : Bool

pub record SessionState : Type 0 where
  pub session_uuid : String
  pub player_hash : String
  pub room_hash : String
  pub player_name : String
  pub preset : String
  pub moves : List String
  pub moves_san : List String
  pub fen : String
  pub turn : String
  pub move_count : ℕ
  pub outcome : Outcome
  pub outcome_method : String
  pub started_at : ℕ
  pub updated_at : ℕ
  pub rating_delta : ℤ
  pub profile : Option ChessProfile
  pub auto_assist : Bool

pub record Candidate : Type 0 where
  pub move : String
  pub eval_cp : ℤ
  pub principal : List String

-- corechess.EvaluateResult, as far as the service reads it
pub record EvaluateResult : Type 0 where
  pub preset_name : String
  pub chosen : String
  pub best_move : String
  pub candidates : List Candidate
  pub blunder : Bool
  pub duration : ℤ

-- What the engine answers: a result or an error, which is a timeout or another.
pub data Evaluation : Type 0 where
  evaluated : EvaluateResult → Evaluation
  timed_out : Evaluation
  broken : Evaluation

pub record AssistSuggestion : Type 0 where
  pub move_uci : String
  pub move_san : String
  pub evaluation_cp : ℤ
  pub principal : List String
  pub duration : ℤ

pub record MoveSummary : Type 0 where
  pub state : SessionState
  pub player_san : String
  pub player_uci : String
  pub engine_san : String
  pub engine_uci : String
  pub finished : Bool
  pub game_id : ℕ
  pub profile : Option ChessProfile
  pub rating_delta : ℤ
  pub assist : Option AssistSuggestion

pub data Error : Type 0 where
  session_not_found session_in_progress invalid_move game_not_found profile_not_found : Error
  undo_not_available engine_unavailable engine_timeout room_not_allowed : Error
  already_finished bad_session_move bad_engine_move duplicate_game : Error
  -- the cache or the database cannot be reached
  unavailable : Error
  preset_required : Error
  preset : PresetError → Error
