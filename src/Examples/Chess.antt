-- ===== src/Examples/Chess.antt =====
-- A toy chess library, which shows that the assumptions of `ChessLib` can be met, and a game.
use Prim.Native.Char.{Char}
use cheese_kakao_talk_bot.Prelude.{
  String, ◌==◌, ◌||◌, refl, Bool, true, not, List, [], ◌∷◌, ◌++◌, Option, none, some, ℕ, nat_eq,
  ◌&&◌, false, if◌then◌else◌,
}
use cheese_kakao_talk_bot.Documents.{Color, Status, Game}
use cheese_kakao_talk_bot.ChessLib.{
  ChessLib, Side, Outcome, white_side, black_side, no_side, no_outcome, black_won, and_then, Kind,
  rook,
}

-- The case of letters past ASCII stays.
abbrev pub same_char : Char → Char
same_char c = c

abbrev side_of : List String → Side
side_of [] = white_side
side_of (m ∷ ms) = elim (side_of ms) [ white_side ↦ black_side | _ ↦ white_side ]

abbrev side_letter : Side → String
side_letter white_side = "w"
side_letter black_side = "b"
side_letter no_side = "-"

abbrev latest : List String → List String
latest [] = []
latest (m ∷ ms) = m ∷ []

abbrev pub decode : List String → String → Option String
decode g s = if s == "e2e4" || s == "e7e5" || s == "e2e5" then some s else none

abbrev make_move : (String → Bool) → List String → String → Option (List String)
make_move legal g m = if legal m then some (m ∷ g) else none

-- A player gave up.
abbrev result_of : List String → Outcome
result_of [] = no_outcome
result_of (m ∷ ms) = if m == "resigned" then black_won else no_outcome

abbrev boards_of : List String → List (List String)
boards_of [] = [] ∷ []
boards_of (m ∷ ms) = boards_of ms ++ ((m ∷ ms) ∷ [])

-- A white rook stands in the corner.
abbrev corner : ℕ → ℕ → Option (Side × Kind)
corner f r = if nat_eq f 0 && nat_eq r 0 then some (white_side, rook) else none

-- A board is the list of its moves, the latest first; `legal` says which moves are made.
abbrev pub toy : (String → Bool) → ChessLib
toy legal = record {
  Play = List String;
  Position = List String;
  Move = String;
  new_game = [];
  position = λ g. g;
  moves = latest;
  fen = λ g. "fen";
  outcome = result_of;
  turn = side_of;
  decode_uci = decode;
  encode_san = λ g m. m;
  move_string = λ m. m;
  move = make_move legal;
  push_uci = λ g s. and_then (decode g s) (make_move legal g);
  push_san = λ g s. if s == "e4" then make_move legal g "e2e4" else none;
  positions = boards_of;
  resign = λ g s. "resigned" ∷ g;
  method = λ g. "Resignation";
  pgn = λ g. "*";
  decode_san = λ g s. if s == "e4" then some "e2e4" else none;
  encode_uci = λ g m. m;
  side_text = side_letter;
  piece_at = λ g f r. corner f r;
  is_capture = λ m. false;
  is_en_passant = λ m. false;
  target = λ m. (4, 3);
  push_uci_lem = λ g s. refl;
}

-- Every move that decodes is legal.
abbrev pub lenient : ChessLib
lenient = toy (λ m. true)

-- "e2e5" decodes and is refused.
abbrev pub strict : ChessLib
strict = toy (λ m. not (m == "e2e5"))

abbrev pub start_game : Game
start_game = record {
  id = "g1";
  fen = "startpos";
  moves_uci = [];
  moves_san = [];
  turn = Color.white;
  status = Status.active;
  white_id = "alice";
  white_name = "Alice";
  black_id = "bob";
  black_name = "Bob";
  origin_room = "room1";
  resolve_room = "room2";
  created_at = 1;
  updated_at = 1;
  winner = "";
  outcome = "";
}

-- The game after e2e4, at instant 5.
abbrev pub after_e4 : Game
after_e4 = record start_game {
  moves_uci = "e2e4" ∷ [];
  moves_san = "e2e4" ∷ [];
  fen = "fen";
  turn = Color.black;
  updated_at = 5;
}

-- The game after Bob gave up, at instant 6.
abbrev pub resigned_game : Game
resigned_game = record after_e4 {
  status = Status.resigned;
  winner = "alice";
  outcome = "resign";
  updated_at = 6;
}
