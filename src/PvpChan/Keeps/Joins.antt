-- ===== src/PvpChan/Keeps/Joins.antt =====
-- Invariants through Join and the creation of a game.
use Prim.Native.Char.{Char}
use cheese_kakao_talk_bot.Prelude.{ℕ, String, ◌==◌, ◌||◌, not, Option, none, some, ltb, leb}
use cheese_kakao_talk_bot.Text.{trim_space}
use cheese_kakao_talk_bot.Documents.{ChannelMeta}
use cheese_kakao_talk_bot.Redis.{Redis}
use cheese_kakao_talk_bot.Action.{run_all}
use cheese_kakao_talk_bot.Action.Ensures.{
  Ensures, Ensures-pure, Ensures-raise, Ensures-if, Ensures-call, Ensures-exec, Ensures-bind,
  Ensures-attempt, trivial-Post,
}
use cheese_kakao_talk_bot.Action.Commands.{Any, Ensures-scard}
use cheese_kakao_talk_bot.PvpChess.Games.{save}
use cheese_kakao_talk_bot.PvpChess.Create.{
  Fresh, assign_colors, store_game, create_game_from_challenge,
}
use cheese_kakao_talk_bot.PvpChess.Keeps.{
  Ensures-get_active_game_by_user_in_room, Ensures-index_participants,
}
use cheese_kakao_talk_bot.PvpChan.Store.{key_participants, is_lobby, participant_count}
use cheese_kakao_talk_bot.PvpChan.Make.{is_found}
use cheese_kakao_talk_bot.PvpChan.Join.{
  join_commands, enter, start, start_if_free, joined, check_waiting, join_code, join, count_or_zero,
  started_meta,
}
use cheese_kakao_talk_bot.PvpChan.Keeps.{
  Openable, Creatable, Ensures-save_meta, Ensures-load_meta, Ensures-add_room, Ensures-remove_lobby,
}

module _ (beyond : Char → Char) (R : Redis) (P : R.Db → Type 0) (o : Openable R P) where
  module _ (f : Fresh) (creatable : Creatable R P f) where
    pub Ensures-create_game_from_challenge :
        (origin resolve challenger challenger_name target target_name choice : String)
        → Ensures R P
            (create_game_from_challenge beyond R f origin resolve challenger challenger_name target
              target_name choice)
            Any
    unfolding create_game_from_challenge store_game save
    Ensures-create_game_from_challenge origin resolve challenger challenger_name target target_name
          choice =
        Ensures-if (challenger == "" || target == "") _ _ (λ _. Ensures-raise _)
          (λ _.
            Ensures-bind _ _
              (Ensures-call Any _ (λ d p. (
                creatable
                    (assign_colors beyond f.coin challenger challenger_name target target_name
                      choice)
                    origin resolve d p,
                trivial-Post _,
              )))
              (λ _ _.
                Ensures-bind _ _ (Ensures-index_participants R P o.tame _ _ _)
                  (λ _ _. Ensures-pure _ tt)))

    Ensures-start :
        (room code user user_name : String) (m : ChannelMeta)
        → o.Open code
        → Ensures R P (start beyond R f room code user user_name m) Any
    unfolding start
    Ensures-start room code user user_name m oc =
        Ensures-bind _ _ (Ensures-create_game_from_challenge _ _ _ _ _ _ _) (λ g _.
          Ensures-bind _ _ (Ensures-save_meta R P o code (started_meta m g) oc) (λ _ _.
            Ensures-bind _ _ (Ensures-attempt _ (Ensures-remove_lobby R P o code))
              (λ _ _. Ensures-pure _ tt)))

    Ensures-start_if_free :
        (room code user user_name : String) (m : ChannelMeta)
        → o.Open code
        → Ensures R P (start_if_free beyond R f room code user user_name m) Any
    unfolding start_if_free
    Ensures-start_if_free room code user user_name m oc =
        Ensures-bind _ _ (Ensures-attempt _ (Ensures-get_active_game_by_user_in_room R P user room))
          (λ busy _.
            Ensures-if (is_found busy) _ _ (λ _. Ensures-raise _)
              (λ _.
                Ensures-bind _ _
                  (Ensures-attempt _
                    (Ensures-get_active_game_by_user_in_room R P m.creator_id m.creator_room))
                  (λ busy2 _.
                    Ensures-if (is_found busy2) _ _ (λ _. Ensures-raise _)
                      (λ _. Ensures-start room code user user_name m oc))))

    Ensures-joined :
        (room code user user_name : String) (n : ℕ) (again : Option ChannelMeta)
        → o.Open code
        → Ensures R P (joined beyond R f room code user user_name n again) Any
    unfolding joined
    Ensures-joined room code user user_name n none oc = Ensures-raise _
    Ensures-joined room code user user_name n (some m) oc =
        Ensures-if (ltb n 2 || not (m.game_id == "")) _ _ (λ _. Ensures-pure _ tt)
          (λ _. Ensures-start_if_free room code user user_name m oc)

  run_join_commands :
      (code room user : String) (d : R.Db)
      → P d
      → P (run_all (join_commands beyond R code room user) d).1
  unfolding run_all
  run_join_commands code room user d p = o.tame.expire_keeps _ _ (
      o.tame.sadd_keeps _ _ _ (
        o.tame.expire_keeps _ _
          (o.tame.sadd_keeps _ _ _ (o.tame.expire_keeps _ _ (o.tame.sadd_keeps _ _ _ p)))))

  Ensures-enter : (code room user : String) → Ensures R P (enter beyond R code room user) Any
  unfolding enter
  Ensures-enter code room user =
      Ensures-bind _ _ (Ensures-scard R P (key_participants code)) (λ n _.
        Ensures-if (leb 2 n) _ _ (λ _. Ensures-raise _)
          (λ _.
            Ensures-exec (join_commands beyond R code room user)
              (run_join_commands code room user)))

  Ensures-check_waiting : (m : Option ChannelMeta) → Ensures R P (check_waiting beyond R m) Any
  Ensures-check_waiting none = Ensures-raise _
  Ensures-check_waiting (some m) =
      Ensures-if (is_lobby m.state) _ _ (λ _. Ensures-pure tt tt) (λ _. Ensures-raise _)

  pub Ensures-join :
      (f : Fresh)
      → Creatable R P f
      → (room code user user_name : String) → o.Open (trim_space code)
      → Ensures R P (join beyond R f room code user user_name) Any
  unfolding join join_code participant_count
  Ensures-join f creatable room code user user_name oc =
      let c = trim_space code in
      Ensures-if (room == "" || c == "" || user == "") _ _ (λ _. Ensures-raise _)
        (λ _. Ensures-bind _ _ (Ensures-load_meta R P o c) (λ found _.
          Ensures-bind _ _ (Ensures-check_waiting found) (λ _ _.
            Ensures-bind _ _ (Ensures-enter c room user) (λ _ _.
              Ensures-bind _ _ (Ensures-add_room R P o c room) (λ _ _.
                Ensures-bind _ _ (Ensures-load_meta R P o c) (λ again _.
                  Ensures-bind _ _ (Ensures-attempt _ (Ensures-scard R P (key_participants c)))
                    (λ n _.
                      Ensures-joined f creatable room c user user_name (count_or_zero n) again
                        oc)))))))
