-- ===== src/PvpChess/Resign.antt =====
-- Resign and ResignByRoom (internal/pvpchess/manager.go). Their transactions differ by the room
-- test alone, which is the argument `scope`.
use Prim.Native.Char.{Char}
use cheese_kakao_talk_bot.Prelude.{
  ℕ, String, Bool, true, ◌||◌, ◌==◌, not, Option, none, some, if◌then◌else◌,
}
use cheese_kakao_talk_bot.Text.{trim_space}
use cheese_kakao_talk_bot.Documents.{Status, Game}
use cheese_kakao_talk_bot.Errors.{
  Result, ok, err, tx_failed, game_not_in_room, game_no_longer_active, invalid_parameters,
}
use cheese_kakao_talk_bot.Redis.{Redis}
use cheese_kakao_talk_bot.Action.{M, pure, raise, attempt, ◌>>=◌, ◌>>◌}
use cheese_kakao_talk_bot.PvpChess.Games.{
  game_key, is_active, in_room, update_game, get_active_game_by_user,
  get_active_game_by_user_in_room, persist_if_final,
}

unfoldable pub opponent_id : Game → String → String
opponent_id g user =
    if g.white_id == user then g.black_id else if g.black_id == user then g.white_id else ""

-- The transaction on the game that it reads.
unfoldable pub resign_body : ℕ → (Game → Bool) → String → Game → Result Game
unfolding opponent_id
resign_body now scope user cur =
    if not (is_active cur.status)
    then err tx_failed
    else if not (scope cur)
    then err game_not_in_room
    else ok (record cur {
      status = Status.resigned;
      winner = opponent_id cur user;
      outcome = "resign";
      updated_at = now;
    })

module _ (beyond : Char → Char) (R : Redis) where
  unfoldable pub resign_transaction : ℕ → (Game → Bool) → String → Game → M R Game
  unfolding resign_body update_game
  resign_transaction now scope user g = update_game R (game_key g.id) (resign_body now scope user)

  unfoldable pub resign_answer : Result Game → M R (Option Game × String)
  unfolding persist_if_final
  resign_answer (ok next) = do persist_if_final beyond R next "resignation"; pure (some next, "기권")
  resign_answer (err tx_failed) = raise game_no_longer_active
  resign_answer (err e) = raise e

  unfoldable pub resign_found :
      ℕ → (Game → Bool) → String → Option Game → M R (Option Game × String)
  unfolding resign_transaction resign_answer
  resign_found now scope user none = pure (none, "")
  resign_found now scope user (some g) = do
    r ← attempt (resign_transaction now scope user g)
    resign_answer r

  unfoldable pub resign : ℕ → String → M R (Option Game × String)
  unfolding resign_found
  resign now user = do
    found ← get_active_game_by_user R user
    resign_found now (λ _. true) user found

  unfoldable pub resign_by_room : ℕ → String → String → M R (Option Game × String)
  unfolding resign_found
  resign_by_room now user room =
      if trim_space user == "" || trim_space room == "" then raise invalid_parameters else do
        found ← get_active_game_by_user_in_room R user room
        resign_found now (in_room room) user found
