-- ===== src/Examples/Repository.antt =====
-- The in-memory repository with a few games.
use cheese_kakao_talk_bot.Prelude.{ℕ, String, ◌≡◌, refl, [], ◌∷◌, some}
use cheese_kakao_talk_bot.Text.{trim_space}
use cheese_kakao_talk_bot.Presets.Types.{pos}
use cheese_kakao_talk_bot.Memrepo.{
  ChessGame, Memrepo, new_memory_repository, inserted, duplicate, insert_game, get_game,
  get_game_by_session, find, add_game, session_key,
}
use cheese_kakao_talk_bot.Memrepo.Laws.{insert_game-get, get_game-owner}

abbrev pub played : String → ℕ → ChessGame
played session ended = record {
  id = 0;
  session_uuid = session;
  player_hash = "p1";
  room_hash = "r1";
  preset = "level1";
  engine_preset = "level1";
  result = "win";
  result_method = "checkmate";
  moves_uci = "e2e4" ∷ [];
  moves_san = "e4" ∷ [];
  pgn = "1. e4";
  started_at = 10;
  ended_at = ended;
  duration = pos 5;
  blunders = pos 0;
  engine_latency = pos 1;
}

-- Two games, of which the first ended later.
abbrev pub two_games : Memrepo
two_games =
    (insert_game (some (played "s2" 20))
      (insert_game (some (played "s1" 30)) new_memory_repository).1).1

third_inserted :
    insert_game (some (played "s3" 25)) two_games
    ≡ (inserted 3, (insert_game (some (played "s3" 25)) two_games).1)
unfolding insert_game session_key find trim_space add_game
third_inserted = refl

insert_game-get_example :
    (get_game 3 "p1" (insert_game (some (played "s3" 25)) two_games).1
      ≡ some (record (played "s3" 25) { id = 3 }))
    × (get_game_by_session "s3" "p1" (insert_game (some (played "s3" 25)) two_games).1
        ≡ some (record (played "s3" 25) { id = 3 }))
    × (insert_game (some (played "s3" 25)) (insert_game (some (played "s3" 25)) two_games).1
        ≡ (duplicate, (insert_game (some (played "s3" 25)) two_games).1))
insert_game-get_example =
    insert_game-get (played "s3" 25) two_games (insert_game (some (played "s3" 25)) two_games).1 3
      third_inserted

first_owned : get_game 1 "p1" two_games ≡ some (record (played "s1" 30) { id = 1 })
unfolding get_game insert_game session_key find trim_space add_game
first_owned = refl

get_game-owner_example : (record (played "s1" 30) { id = 1 }).player_hash ≡ "p1"
get_game-owner_example =
    get_game-owner 1 "p1" two_games (record (played "s1" 30) { id = 1 }) first_owned
