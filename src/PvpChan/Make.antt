-- ===== src/PvpChan/Make.antt =====
-- Manager.Make (internal/pvpchan/manager.go): a new waiting channel.
use cheese_kakao_talk_bot.Prelude.{
  ℕ, zero, suc, ◌+◌, String, Bool, true, false, ◌&&◌, ◌||◌, ◌==◌, List, [], ◌∷◌, Option, none, some,
  if◌then◌else◌,
}
use cheese_kakao_talk_bot.Text.{trim_space}
use cheese_kakao_talk_bot.Documents.{ChannelState, ChannelMeta, blank, Game}
use cheese_kakao_talk_bot.Errors.{
  Result, ok, err, invalid_args, player_busy_in_room, creator_has_lobby, no_code, random_failed,
}
use cheese_kakao_talk_bot.Redis.{Redis}
use cheese_kakao_talk_bot.Action.{M, pure, raise, attempt, call, ◌>>=◌, ◌>>◌}
use cheese_kakao_talk_bot.PvpChess.Games.{get_active_game_by_user_in_room}
use cheese_kakao_talk_bot.PvpChan.Store.{
  key_meta, code_gen, is_lobby, save_meta, load_meta, add_room, add_participant, codes_by_user,
  add_lobby,
}

-- What one attempt draws: six random bytes, unless the source fails, and the instant.
pub record Draw : Type 0 where
  pub bytes : Option (List ℕ)
  pub instant : ℕ

pub record MakeResult : Type 0 where
  pub code : String
  pub meta : ChannelMeta

-- `g, _ := …; g != nil`
abbrev pub is_found : Result (Option Game) → Bool
is_found (ok (some g)) = true
is_found (ok none) = false
is_found (err e) = false

abbrev pub is_own_lobby : String → Result (Option ChannelMeta) → Bool
is_own_lobby user (ok (some m)) = is_lobby m.state && (trim_space m.creator_id == trim_space user)
is_own_lobby user (ok none) = false
is_own_lobby user (err e) = false

unfoldable pub new_meta : String → ℕ → String → String → String → ChannelMeta
new_meta code now room user user_name = record {
  id = code;
  state = ChannelState.lobby;
  created_at = now;
  creator_id = user;
  creator_name = user_name;
  creator_room = room;
  white_id = "";
  white_name = "";
  black_id = "";
  black_name = "";
  game_id = "";
}

module _ (R : Redis) where
  -- The loop over the codes of a user, with its early return.
  unfoldable pub owns_lobby : String → List String → M R Bool
  unfolding load_meta
  owns_lobby user [] = pure false
  owns_lobby user (c ∷ cs) = do
    r ← attempt (load_meta R c)
    let rest = owns_lobby user cs
    if is_own_lobby user r then pure true else rest

  abbrev pub owns_lobby_in : String → Result (List String) → M R Bool
  owns_lobby_in user (ok codes) = owns_lobby user codes
  owns_lobby_in user (err e) = pure false

  -- What follows a code that SETNX has reserved.
  unfoldable pub open_channel : String → ChannelMeta → String → String → M R MakeResult
  unfolding save_meta add_room add_participant add_lobby
  open_channel code m room user = do
    save_meta R code m
    add_room R code room
    add_participant R code user
    add_lobby R code
    pure (record { code = code; meta = m })

  abbrev pub drawn_code : Option (List ℕ) → M R String
  drawn_code none = raise random_failed
  drawn_code (some bs) = pure (code_gen bs)

  -- The loop `for i := 0; i < 5; i++`, with the rounds left and the round number.
  unfoldable pub allocate : ℕ → ℕ → (ℕ → Draw) → String → String → String → M R MakeResult
  unfolding open_channel new_meta
  allocate zero i draws room user user_name = raise no_code
  allocate (suc left) i draws room user user_name = do
    c ← drawn_code (draws i).bytes
    won ← call (R.set_nx (key_meta c) blank)
    let rest = allocate left (i + 1) draws room user user_name
    if won
        then open_channel c (new_meta c (draws i).instant room user user_name) room user
        else rest

  unfoldable pub make : (ℕ → Draw) → String → String → String → M R MakeResult
  unfolding allocate owns_lobby
  make draws room user user_name =
      if trim_space room == "" || trim_space user == "" then raise invalid_args else do
        busy ← attempt (get_active_game_by_user_in_room R user room)
        if is_found busy then raise player_busy_in_room else do
          codes ← attempt (codes_by_user R user)
          owns ← owns_lobby_in user codes
          if owns then raise creator_has_lobby else allocate 5 0 draws room user user_name
