-- ===== src/ChessLib.antt =====
-- The chess library github.com/corentings/chess/v2, through the calls that the program makes.
-- It is no part of the repository: its types are abstract.
use cheese_kakao_talk_bot.Prelude.{ℕ, Bool, String, ◌≡◌, List, Option, none, some}

pub data Side : Type 0 where
  white_side black_side no_side : Side

pub data Kind : Type 0 where
  pawn knight bishop rook queen king : Kind

pub data Outcome : Type 0 where
  no_outcome white_won black_won draw : Outcome

abbrev pub and_then : {A B : Type 0} → Option A → (A → Option B) → Option B
and_then none f = none
and_then (some a) f = f a

pub record ChessLib : Type 1 where
  pub Play : Type 0
  pub Position : Type 0
  pub Move : Type 0
  pub new_game : Play
  pub position : Play → Position
  pub moves : Play → List Move
  pub fen : Play → String
  pub outcome : Play → Outcome
  pub turn : Position → Side
  pub decode_uci : Position → String → Option Move
  pub encode_san : Position → Move → String
  pub move_string : Move → String
  -- Game.Move(mv, nil): `none` is an error, and then the game is as it was.
  pub move : Play → Move → Option Play
  -- Game.PushNotationMove in either notation; `none` is an error.
  pub push_uci : Play → String → Option Play
  pub push_san : Play → String → Option Play
  -- The boards before each move and the last one, the result by resignation, and the texts.
  pub positions : Play → List Position
  pub resign : Play → Side → Play
  pub method : Play → String
  pub pgn : Play → String
  pub decode_san : Position → String → Option Move
  pub encode_uci : Position → Move → String
  -- Color.String
  pub side_text : Side → String
  -- PushNotationMove decodes the text at the current position and makes the move.
  -- A board by file and rank from 0, the tags of a move, and the square it goes to.
  pub piece_at : Position → ℕ → ℕ → Option (Side × Kind)
  pub is_capture : Move → Bool
  pub is_en_passant : Move → Bool
  pub target : Move → ℕ × ℕ
  pub push_uci_lem :
      (g : Play) (s : String) → push_uci g s ≡ and_then (decode_uci (position g) s) (move g)
