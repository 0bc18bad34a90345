-- ===== src/PvpChan/Lists.antt =====
-- RoomsByUserAndGame and MetaByGame (internal/pvpchan/manager.go).
use cheese_kakao_talk_bot.Prelude.{
  String, Bool, false, ◌==◌, List, [], ◌∷◌, Option, none, some, if◌then◌else◌,
}
use cheese_kakao_talk_bot.Text.{trim_space}
use cheese_kakao_talk_bot.Documents.{ChannelMeta, Game}
use cheese_kakao_talk_bot.Errors.{Result, ok, err}
use cheese_kakao_talk_bot.Redis.{Redis}
use cheese_kakao_talk_bot.Action.{M, pure, attempt, ◌>>=◌}
use cheese_kakao_talk_bot.PvpChan.Store.{load_meta, rooms, codes_by_user}

abbrev pub binds_game : String → Result (Option ChannelMeta) → Bool
binds_game game_id (ok (some m)) = m.game_id == game_id
binds_game game_id (ok none) = false
binds_game game_id (err e) = false

-- The channel of a game, compared with both ids trimmed.
abbrev pub meta_of_game : String → Result (Option ChannelMeta) → Option ChannelMeta
meta_of_game game_id (ok (some m)) =
    if trim_space m.game_id == trim_space game_id then some m else none
meta_of_game game_id (ok none) = none
meta_of_game game_id (err e) = none

module _ (R : Redis) where
  unfoldable pub rooms_of_first : String → List String → M R (List String)
  unfolding load_meta rooms
  rooms_of_first game_id [] = pure []
  rooms_of_first game_id (c ∷ cs) = do
    r ← attempt (load_meta R c)
    let rest = rooms_of_first game_id cs
    if binds_game game_id r then rooms R c else rest

  unfoldable pub rooms_by_user_and_game : String → String → M R (List String)
  unfolding rooms_of_first codes_by_user
  rooms_by_user_and_game user game_id = do
    codes ← codes_by_user R user
    rooms_of_first game_id codes

  abbrev pub found_or :
      String
      → Option ChannelMeta
      → M R (Option (ChannelMeta × String))
      → M R (Option (ChannelMeta × String))
  found_or code none rest = rest
  found_or code (some m) rest = pure (some (m, code))

  unfoldable pub meta_in_codes : String → List String → M R (Option (ChannelMeta × String))
  unfolding load_meta
  meta_in_codes game_id [] = pure none
  meta_in_codes game_id (c ∷ cs) = do
    r ← attempt (load_meta R c)
    let rest = meta_in_codes game_id cs
    found_or c (meta_of_game game_id r) rest

  abbrev pub codes_or_none : Result (List String) → List String
  codes_or_none (ok cs) = cs
  codes_or_none (err e) = []

  -- One round of the loop over the two players: `none` goes on with the next.
  unfoldable pub meta_of_player : String → String → M R (Option (ChannelMeta × String))
  unfolding meta_in_codes codes_by_user
  meta_of_player game_id user =
      if user == ""
      then pure none
      else do codes ← attempt (codes_by_user R user); meta_in_codes game_id (codes_or_none codes)

  abbrev pub or_else :
      Option (ChannelMeta × String)
      → M R (Option (ChannelMeta × String))
      → M R (Option (ChannelMeta × String))
  or_else none rest = rest
  or_else (some x) rest = pure (some x)

  unfoldable pub meta_by_game : Game → M R (Option (ChannelMeta × String))
  unfolding meta_of_player
  meta_by_game g = do
    first ← meta_of_player g.id (trim_space g.white_id)
    or_else first (meta_of_player g.id (trim_space g.black_id))
