-- ===== src/PvpChan/Keeps.antt =====
-- Invariants through Make and Join: one that is kept by the commands on sets, by the channel's
-- documents and by the new game is kept by both, whatever other clients and the network do.
pub mod Joins
use Prim.Native.Char.{Char}
use cheese_kakao_talk_bot.Prelude.{
  ℕ, zero, suc, ◌+◌, String, ◌==◌, ◌||◌, not, ◌≡◌, Bool, true, List, [], ◌∷◌, Option, none, some,
  ltb, leb,
}
use cheese_kakao_talk_bot.Text.{trim_space}
use cheese_kakao_talk_bot.Documents.{ChannelMeta, Doc, meta, blank, game, Game}
use cheese_kakao_talk_bot.Errors.{Result, ok, err}
use cheese_kakao_talk_bot.Redis.{Redis}
use cheese_kakao_talk_bot.Action.{call, run_all, pure, M}
use cheese_kakao_talk_bot.Action.Ensures.{
  Ensures, Ensures-pure, Ensures-raise, Ensures-if, Ensures-call, Ensures-exec, Ensures-bind,
  Ensures-attempt, trivial-Post, Post,
}
use cheese_kakao_talk_bot.Action.Commands.{
  Tame, Any, Ensures-get, Ensures-smembers, Ensures-scard, Ensures-sadd, Ensures-srem,
  Ensures-expire,
}
use cheese_kakao_talk_bot.PvpChess.Games.{game_key, save}
use cheese_kakao_talk_bot.PvpChess.Create.{
  Fresh, Seats, new_game, assign_colors, store_game, create_game_from_challenge,
}
use cheese_kakao_talk_bot.PvpChess.Keeps.{
  Ensures-get_active_game_by_user_in_room, Ensures-index_participants,
}
use cheese_kakao_talk_bot.PvpChan.Store.{
  key_meta, key_rooms, key_participants, key_user_idx, key_lobby, is_lobby, save_meta, load_meta,
  add_room, add_participant, codes_by_user, participant_count, add_lobby, remove_lobby,
}
use cheese_kakao_talk_bot.PvpChan.Make.{
  Draw, new_meta, is_found, is_own_lobby, owns_lobby, owns_lobby_in, open_channel, drawn_code,
  allocate, make,
}
use cheese_kakao_talk_bot.PvpChan.Join.{
  join_commands, enter, start, start_if_free, joined, check_waiting, join_code, join, count_or_zero,
  started_meta,
}

-- `Open code`: the channel's document may be written. A code that was reserved is open.
pub record Openable (R : Redis) (P : R.Db → Type 0) : Type 1 where
  pub Open : String → Type 0
  pub tame : Tame R P
  pub meta_keeps :
      (code : String)
      → Open code
      → (m : ChannelMeta) (d : R.Db) → P d
      → P (R.set (key_meta code) (meta m) d).1
  pub reserve_keeps :
      (code : String) (d : R.Db)
      → P d
      → P (R.set_nx (key_meta code) blank d).1
        × Post (λ won. won ≡ true → Open code) (R.set_nx (key_meta code) blank d).0

-- The write of a new game keeps `P`.
abbrev pub Creatable : (R : Redis) → (R.Db → Type 0) → Fresh → Type 0
Creatable R P f =
    (s : Seats) (origin resolve : String) (d : R.Db)
    → P d
    → P (R.set (game_key f.id) (game (new_game f s origin resolve)) d).1

module _ (R : Redis) (P : R.Db → Type 0) (o : Openable R P) where
  pub Ensures-save_meta :
      (code : String) (m : ChannelMeta) → o.Open code → Ensures R P (save_meta R code m) Any
  unfolding save_meta
  Ensures-save_meta code m open_code =
      Ensures-bind _ _
        (Ensures-call Any (R.set (key_meta code) (meta m))
          (λ d p. (o.meta_keeps code open_code m d p, trivial-Post _)))
        (λ _ _.
          Ensures-bind _ _ (Ensures-attempt _ (Ensures-expire R P o.tame (key_rooms code))) (λ _ _.
            Ensures-bind _ _ (Ensures-attempt _ (Ensures-expire R P o.tame (key_participants code)))
              (λ _ _. Ensures-pure tt tt)))

  pub Ensures-load_meta : (code : String) → Ensures R P (load_meta R code) Any
  unfolding load_meta
  Ensures-load_meta code =
      Ensures-bind _ _ (Ensures-get R P (key_meta code)) (λ _ _. Ensures-pure _ tt)

  pub Ensures-add_room : (code room : String) → Ensures R P (add_room R code room) Any
  unfolding add_room
  Ensures-add_room code room =
      Ensures-if (trim_space room == "") _ _ (λ _. Ensures-pure tt tt)
        (λ _.
          Ensures-bind _ _ (Ensures-sadd R P o.tame (key_rooms code) room)
            (λ _ _. Ensures-expire R P o.tame (key_rooms code)))

  Ensures-add_participant : (code user : String) → Ensures R P (add_participant R code user) Any
  unfolding add_participant
  Ensures-add_participant code user =
      Ensures-if (trim_space user == "") _ _ (λ _. Ensures-pure tt tt)
        (λ _. Ensures-bind _ _ (Ensures-sadd R P o.tame (key_participants code) user) (λ _ _.
          Ensures-bind _ _ (Ensures-attempt _ (Ensures-expire R P o.tame (key_participants code)))
            (λ _ _.
              Ensures-bind _ _ (Ensures-sadd R P o.tame (key_user_idx user) code)
                (λ _ _. Ensures-expire R P o.tame (key_user_idx user)))))

  Ensures-add_lobby : (code : String) → Ensures R P (add_lobby R code) Any
  unfolding add_lobby
  Ensures-add_lobby code =
      Ensures-if (trim_space code == "") _ _ (λ _. Ensures-pure tt tt)
        (λ _. Ensures-bind _ _ (Ensures-sadd R P o.tame key_lobby code) (λ _ _.
          Ensures-bind _ _ (Ensures-attempt _ (Ensures-expire R P o.tame key_lobby))
            (λ _ _. Ensures-pure tt tt)))

  pub Ensures-remove_lobby : (code : String) → Ensures R P (remove_lobby R code) Any
  unfolding remove_lobby
  Ensures-remove_lobby code =
      Ensures-if (trim_space code == "") _ _ (λ _. Ensures-pure tt tt)
        (λ _. Ensures-srem R P o.tame key_lobby code)

  Ensures-open_channel :
      (code : String) (m : ChannelMeta) (room user : String)
      → o.Open code
      → Ensures R P (open_channel R code m room user) Any
  unfolding open_channel
  Ensures-open_channel code m room user open_code =
      Ensures-bind _ _ (Ensures-save_meta code m open_code) (λ _ _.
        Ensures-bind _ _ (Ensures-add_room code room) (λ _ _.
          Ensures-bind _ _ (Ensures-add_participant code user)
            (λ _ _. Ensures-bind _ _ (Ensures-add_lobby code) (λ _ _. Ensures-pure _ tt))))

  Ensures-drawn_code : (b : Option (List ℕ)) → Ensures R P (drawn_code R b) Any
  Ensures-drawn_code none = Ensures-raise _
  Ensures-drawn_code (some bs) = Ensures-pure _ tt

  Ensures-allocate :
      (left i : ℕ) (draws : ℕ → Draw) (room user user_name : String)
      → Ensures R P (allocate R left i draws room user user_name) Any
  unfolding allocate
  Ensures-allocate zero i draws room user user_name = Ensures-raise _
  Ensures-allocate (suc left) i draws room user user_name =
      Ensures-bind _ _ (Ensures-drawn_code (draws i).bytes) (λ c _.
        Ensures-bind _ _
          (Ensures-call (λ won. won ≡ true → o.Open c) (R.set_nx (key_meta c) blank)
            (λ d p. o.reserve_keeps c d p))
          (λ won opens.
            Ensures-if won _ _ (λ e. Ensures-open_channel c _ room user (opens e))
              (λ _. Ensures-allocate left (i + 1) draws room user user_name)))

  Ensures-owns_lobby :
      (user : String) (codes : List String) → Ensures R P (owns_lobby R user codes) Any
  unfolding owns_lobby
  Ensures-owns_lobby user [] = Ensures-pure _ tt
  Ensures-owns_lobby user (c ∷ cs) =
      Ensures-bind _ _ (Ensures-attempt _ (Ensures-load_meta c)) (λ r _.
        Ensures-if (is_own_lobby user r) (pure true) (owns_lobby R user cs)
          (λ _. Ensures-pure true tt) (λ _. Ensures-owns_lobby user cs))

  Ensures-owns_lobby_in :
      (user : String) (r : Result (List String)) → Ensures R P (owns_lobby_in R user r) Any
  Ensures-owns_lobby_in user (ok codes) = Ensures-owns_lobby user codes
  Ensures-owns_lobby_in user (err e) = Ensures-pure _ tt

  pub Ensures-make :
      (draws : ℕ → Draw) (room user user_name : String)
      → Ensures R P (make R draws room user user_name) Any
  unfolding make codes_by_user
  Ensures-make draws room user user_name =
      Ensures-if (trim_space room == "" || trim_space user == "") _ _ (λ _. Ensures-raise _)
        (λ _.
          Ensures-bind _ _
            (Ensures-attempt _ (Ensures-get_active_game_by_user_in_room R P user room))
            (λ busy _.
              Ensures-if (is_found busy) _ _ (λ _. Ensures-raise _)
                (λ _.
                  Ensures-bind _ _ (Ensures-attempt _ (Ensures-smembers R P (key_user_idx user)))
                    (λ codes _. Ensures-bind _ _ (Ensures-owns_lobby_in user codes) (λ owns _.
                      Ensures-if owns _ _ (λ _. Ensures-raise _)
                        (λ _. Ensures-allocate 5 0 draws room user user_name))))))
