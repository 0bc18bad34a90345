-- ===== src/PvpChan/Store.antt =====
-- internal/pvpchan/store_redis.go: the keys and the records of a channel.
use cheese_kakao_talk_bot.Prelude.{
  ℕ, zero, suc, ◌%◌, String, ◌⧺◌, Bool, true, false, ◌==◌, List, [], ◌∷◌, Option, none, some,
  if◌then◌else◌,
}
use cheese_kakao_talk_bot.Text.{trim_space}
use cheese_kakao_talk_bot.Documents.{ChannelState, ChannelMeta, meta, as_meta}
use cheese_kakao_talk_bot.Errors.{Result, ok, err}
use cheese_kakao_talk_bot.Redis.{Redis}
use cheese_kakao_talk_bot.Action.{M, pure, attempt, call, ◌>>=◌, ◌>>◌}
use cheese_kakao_talk_bot.PvpChess.Games.{map_option}

unfoldable pub key_meta : String → String
key_meta code = "ch:" ⧺ trim_space code

unfoldable pub key_rooms : String → String
unfolding key_meta
key_rooms code = key_meta code ⧺ ":rooms"

unfoldable pub key_participants : String → String
unfolding key_meta
key_participants code = key_meta code ⧺ ":participants"

unfoldable pub key_user_idx : String → String
key_user_idx user = "ch:index:user:" ⧺ trim_space user

abbrev pub key_lobby : String
key_lobby = "ch:lobby"

-- The i-th letter of the alphabet of channel codes.
abbrev letter_at : String → ℕ → String
letter_at String.[] i = ""
letter_at (String.◌∷◌ c s) zero = String.◌∷◌ c ""
letter_at (String.◌∷◌ c s) (suc i) = letter_at s i

abbrev code_letters : List ℕ → String
code_letters [] = ""
code_letters (b ∷ bs) = letter_at "ABCDEFGHIJKLMNOPQRSTUVWXYZ0123456789" (b % 36) ⧺ code_letters bs

-- codeGen, from the bytes that crypto/rand gives
unfoldable pub code_gen : List ℕ → String
code_gen bs = "CH-" ⧺ code_letters bs

abbrev pub is_lobby : ChannelState → Bool
is_lobby ChannelState.lobby = true
is_lobby _ = false

module _ (R : Redis) where
  unfoldable pub save_meta : String → ChannelMeta → M R (Unit {0})
  unfolding key_meta key_rooms key_participants
  save_meta code m = do
    call (R.set (key_meta code) (meta m))
    attempt (call (R.expire (key_rooms code)))
    attempt (call (R.expire (key_participants code)))
    pure tt

  unfoldable pub load_meta : String → M R (Option ChannelMeta)
  unfolding key_meta
  load_meta code = do raw ← call (R.get (key_meta code)); pure (map_option as_meta raw)

  unfoldable pub add_room : String → String → M R (Unit {0})
  unfolding key_rooms
  add_room code room =
      if trim_space room == ""
      then pure tt
      else call (R.sadd (key_rooms code) room) >> call (R.expire (key_rooms code))

  unfoldable pub rooms : String → M R (List String)
  unfolding key_rooms
  rooms code = call (R.smembers (key_rooms code))

  unfoldable pub participant_count : String → M R ℕ
  unfolding key_participants
  participant_count code = call (R.scard (key_participants code))

  unfoldable pub add_participant : String → String → M R (Unit {0})
  unfolding key_participants key_user_idx
  add_participant code user = if trim_space user == "" then pure tt else do
    call (R.sadd (key_participants code) user)
    attempt (call (R.expire (key_participants code)))
    call (R.sadd (key_user_idx user) code)
    call (R.expire (key_user_idx user))

  unfoldable pub codes_by_user : String → M R (List String)
  unfolding key_user_idx
  codes_by_user user = call (R.smembers (key_user_idx user))

  unfoldable pub add_lobby : String → M R (Unit {0})
  add_lobby code =
      if trim_space code == ""
      then pure tt
      else do call (R.sadd key_lobby code); attempt (call (R.expire key_lobby)); pure tt

  unfoldable pub remove_lobby : String → M R (Unit {0})
  remove_lobby code = if trim_space code == "" then pure tt else call (R.srem key_lobby code)

  -- A channel that cannot be read, is gone or is no longer waiting is left out.
  abbrev pub keep_waiting : Result (Option ChannelMeta) → List ChannelMeta → List ChannelMeta
  keep_waiting (ok (some m)) ms = if is_lobby m.state then m ∷ ms else ms
  keep_waiting (ok none) ms = ms
  keep_waiting (err e) ms = ms

  unfoldable pub load_waiting : List String → M R (List ChannelMeta)
  unfolding load_meta
  load_waiting [] = pure []
  load_waiting (c ∷ cs) = do
    r ← attempt (load_meta c)
    ms ← load_waiting cs
    pure (keep_waiting r ms)

  unfoldable pub list_lobby : M R (List ChannelMeta)
  unfolding load_waiting
  list_lobby = do codes ← call (R.smembers key_lobby); load_waiting codes
