-- ===== src/PvpChess/Create.antt =====
-- CreateGameFromChallenge (internal/pvpchess/manager.go).
use Prim.Native.Char.{Char}
use cheese_kakao_talk_bot.Prelude.{
  ℕ, String, Bool, ◌||◌, ◌==◌, [], Option, none, some, nat_eq, if◌then◌else◌,
}
use cheese_kakao_talk_bot.Text.{trim_space, to_lower}
use cheese_kakao_talk_bot.Documents.{Color, Status, Game}
use cheese_kakao_talk_bot.Errors.{invalid_participants}
use cheese_kakao_talk_bot.Redis.{Redis}
use cheese_kakao_talk_bot.Action.{M, pure, raise, ◌>>◌}
use cheese_kakao_talk_bot.PvpChess.Games.{save, index_participants}

-- What a creation draws from outside: the new id, a random bit (`none`: the source failed), and
-- the two instants.
pub record Fresh : Type 0 where
  pub id : String
  pub coin : Option ℕ
  pub created : ℕ
  pub updated : ℕ

pub record Seats : Type 0 where
  pub white_id : String
  pub white_name : String
  pub black_id : String
  pub black_name : String

abbrev pub swapped : Option ℕ → Bool
swapped none = Bool.false
swapped (some n) = nat_eq n 0

-- The switch on the colour choice; all but white and black is random.
unfoldable pub assign_colors :
    (Char → Char) → Option ℕ → String → String → String → String → String → Seats
assign_colors beyond coin challenger challenger_name target target_name choice =
    let cv = to_lower beyond (trim_space choice) in
    let kept : Seats = record {
      white_id = challenger;
      white_name = challenger_name;
      black_id = target;
      black_name = target_name;
    } in
    let turned : Seats = record {
      white_id = target;
      white_name = target_name;
      black_id = challenger;
      black_name = challenger_name;
    } in
    if cv == "white" || cv == "w"
    then kept
    else if cv == "black" || cv == "b"
    then turned
    else if swapped coin
    then turned
    else kept

unfoldable pub new_game : Fresh → Seats → String → String → Game
new_game f s origin resolve = record {
  id = f.id;
  fen = "startpos";
  moves_uci = [];
  moves_san = [];
  turn = Color.white;
  status = Status.active;
  white_id = trim_space s.white_id;
  white_name = trim_space s.white_name;
  black_id = trim_space s.black_id;
  black_name = trim_space s.black_name;
  origin_room = trim_space origin;
  resolve_room = trim_space resolve;
  created_at = f.created;
  updated_at = f.updated;
  winner = "";
  outcome = "";
}

unfoldable pub store_game : (R : Redis) → Game → M R Game
store_game R g = do save R g; index_participants R g.id g.white_id g.black_id; pure g

unfoldable pub create_game_from_challenge :
    (Char → Char)
    → (R : Redis) → Fresh
    → String
    → String
    → String
    → String
    → String
    → String
    → String
    → M R Game
unfolding assign_colors new_game store_game
create_game_from_challenge beyond R f origin resolve challenger challenger_name target target_name
      choice =
    if challenger == "" || target == ""
    then raise invalid_participants
    else store_game R (
        new_game f
          (assign_colors beyond f.coin challenger challenger_name target target_name choice) origin
          resolve)
