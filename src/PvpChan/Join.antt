-- ===== src/PvpChan/Join.antt =====
-- Manager.Join (internal/pvpchan/manager.go): the second participant starts the game.
use Prim.Native.Char.{Char}
use cheese_kakao_talk_bot.Prelude.{
  ℕ, String, Bool, true, ◌||◌, ◌==◌, not, List, [], ◌∷◌, Option, none, some, ltb, leb,
  if◌then◌else◌,
}
use cheese_kakao_talk_bot.Text.{trim_space}
use cheese_kakao_talk_bot.Documents.{ChannelState, ChannelMeta, Game}
use cheese_kakao_talk_bot.Errors.{
  Result, ok, err, invalid_args, channel_gone, channel_active, full, player_busy_in_room, panic,
}
use cheese_kakao_talk_bot.Redis.{Redis}
use cheese_kakao_talk_bot.Action.{M, pure, raise, attempt, call, exec, ◌>>=◌, ◌>>◌}
use cheese_kakao_talk_bot.PvpChess.Games.{get_active_game_by_user_in_room}
use cheese_kakao_talk_bot.PvpChess.Create.{Fresh, create_game_from_challenge}
use cheese_kakao_talk_bot.PvpChan.Store.{
  key_participants, key_rooms, key_user_idx, is_lobby, save_meta, load_meta, add_room,
  participant_count, remove_lobby,
}
use cheese_kakao_talk_bot.PvpChan.Make.{is_found}

pub record JoinResult : Type 0 where
  pub started : Bool
  pub game_id : String
  pub meta : ChannelMeta

-- `cnt, _ := …`
abbrev pub count_or_zero : Result ℕ → ℕ
count_or_zero (ok n) = n
count_or_zero (err e) = 0

unfoldable pub started_meta : ChannelMeta → Game → ChannelMeta
started_meta m g = record m {
  white_id = g.white_id;
  white_name = g.white_name;
  black_id = g.black_id;
  black_name = g.black_name;
  state = ChannelState.active;
  game_id = g.id;
}

module _ (beyond : Char → Char) (R : Redis) where
  -- The six commands of the transaction.
  abbrev pub join_commands : String → String → String → List (R.Db → Result (Unit {0}) × R.Db)
  join_commands code room user =
      R.sadd (key_participants code) user
      ∷ R.expire (key_participants code)
      ∷ R.sadd (key_rooms code) room
      ∷ R.expire (key_rooms code)
      ∷ R.sadd (key_user_idx user) code
      ∷ R.expire (key_user_idx user)
      ∷ []

  -- The closure under WATCH of the participants.
  unfoldable pub enter : String → String → String → M R (Unit {0})
  enter code room user = do
    n ← call (R.scard (key_participants code))
    if leb 2 n then raise full else exec (join_commands code room user)

  -- The game of two participants, and the channel's record of it.
  unfoldable pub start : Fresh → String → String → String → String → ChannelMeta → M R JoinResult
  unfolding started_meta save_meta remove_lobby
  start fresh room code user user_name m = do
    g ←
        create_game_from_challenge beyond R fresh m.creator_room room m.creator_id m.creator_name
          user user_name "random"
    save_meta R code (started_meta m g)
    attempt (remove_lobby R code)
    pure (record { started = true; game_id = g.id; meta = started_meta m g })

  -- The two busy tests before the start; a failed lookup counts as not busy.
  unfoldable pub start_if_free :
      Fresh → String → String → String → String → ChannelMeta → M R JoinResult
  unfolding start
  start_if_free fresh room code user user_name m = do
    busy ← attempt (get_active_game_by_user_in_room R user room)
    if is_found busy then raise player_busy_in_room else do
      busy2 ← attempt (get_active_game_by_user_in_room R m.creator_id m.creator_room)
      if is_found busy2 then raise player_busy_in_room else start fresh room code user user_name m

  -- After the reload. A channel that has expired meanwhile is a nil pointer.
  unfoldable pub joined :
      Fresh → String → String → String → String → ℕ → Option ChannelMeta → M R JoinResult
  unfolding start_if_free
  joined fresh room code user user_name n none = raise panic
  joined fresh room code user user_name n (some m) =
      if ltb n 2 || not (m.game_id == "")
      then pure (record { started = Bool.false; game_id = m.game_id; meta = m })
      else start_if_free fresh room code user user_name m

  abbrev pub check_waiting : Option ChannelMeta → M R (Unit {0})
  check_waiting none = raise channel_gone
  check_waiting (some m) = if is_lobby m.state then pure tt else raise channel_active

  unfoldable pub join_code : Fresh → String → String → String → String → M R JoinResult
  unfolding enter joined
  join_code fresh room code user user_name =
      if room == "" || code == "" || user == "" then raise invalid_args else do
        found ← load_meta R code
        check_waiting found
        enter code room user
        add_room R code room
        again ← load_meta R code
        n ← attempt (participant_count R code)
        joined fresh room code user user_name (count_or_zero n) again

  unfoldable pub join : Fresh → String → String → String → String → M R JoinResult
  unfolding join_code
  join fresh room code user user_name = join_code fresh room (trim_space code) user user_name
