-- ===== src/PvpChess/Actions.antt =====
-- What the moves and resignations of the PvP games keep: an invariant that is kept by every write
-- of a game which `play_body` or `resign_body` computed from a stored one.
use Prim.Native.Char.{Char}
use cheese_kakao_talk_bot.Prelude.{
  ℕ, String, ◌==◌, ◌||◌, ◌≡◌, Bool, true, length, Option, none, some,
}
use cheese_kakao_talk_bot.Text.{trim_space}
use cheese_kakao_talk_bot.Documents.{Status, Game, Doc, game, as_game}
use cheese_kakao_talk_bot.Errors.{Result, ok, err, tx_failed, illegal_move, not_your_turn}
use cheese_kakao_talk_bot.Redis.{Redis, text}
use cheese_kakao_talk_bot.ChessLib.{ChessLib}
use cheese_kakao_talk_bot.Action.Ensures.{
  Ensures, Ensures-pure, Ensures-raise, Ensures-if, Ensures-bind, Ensures-attempt,
}
use cheese_kakao_talk_bot.Action.Commands.{Any}
use cheese_kakao_talk_bot.PvpChess.Games.{game_key, in_room}
use cheese_kakao_talk_bot.PvpChess.Moves.{
  play_body, play_transaction, persist_as, play_answer, play_found, play_move, still_in_room,
  play_move_by_room,
}
use cheese_kakao_talk_bot.PvpChess.Resign.{
  resign_body, resign_transaction, resign_answer, resign_found, resign, resign_by_room,
}
use cheese_kakao_talk_bot.PvpChess.Keeps.{
  Ensures-get_active_game_by_user, Ensures-get_active_game_by_user_in_room,
  Ensures-persist_if_final, Ensures-update_game,
}

-- What an invariant says of the game under a key, and that it survives the writes.
pub record Playable (C : ChessLib) (beyond : Char → Char) (R : Redis) (P : R.Db → Type 0)
    : Type 1 where
  pub Known : String → Game → Type 0
  pub knows :
      (key : String) (d : R.Db)
      → P d
      → (x : Doc) → R.look d key ≡ some (text x)
      → Known key (as_game x)
  pub play_keeps :
      (now : ℕ) (scope : Game → Bool) (user move_str : String) (n : ℕ) (key : String)
      (cur next : Game)
      → Known key cur
      → play_body C beyond now scope user move_str n cur ≡ ok next
      → (d : R.Db) → P d
      → P (R.set key (game next) d).1
  pub resign_keeps :
      (now : ℕ) (scope : Game → Bool) (user : String) (key : String) (cur next : Game)
      → Known key cur
      → resign_body now scope user cur ≡ ok next
      → (d : R.Db) → P d
      → P (R.set key (game next) d).1

module _ (C : ChessLib) (beyond : Char → Char) (R : Redis) (P : R.Db → Type 0)
    (p : Playable C beyond R P) where
  Ensures-play_transaction :
      (now : ℕ) (scope : Game → Bool) (user move_str : String) (g : Game)
      → Ensures R P (play_transaction C beyond R now scope user move_str g) Any
  unfolding play_transaction
  Ensures-play_transaction now scope user move_str g =
      Ensures-bind _ _
        (Ensures-update_game R P (p.Known (game_key g.id)) (game_key g.id)
          (play_body C beyond now scope user move_str (length g.moves_uci))
          (p.knows (game_key g.id))
          (p.play_keeps now scope user move_str (length g.moves_uci) (game_key g.id)))
        (λ next _. Ensures-pure _ tt)

  Ensures-persist_as : (s : Status) (g : Game) → Ensures R P (persist_as C beyond R s g) Any
  unfolding persist_as
  Ensures-persist_as Status.finished g = Ensures-persist_if_final R P beyond g "checkmate"
  Ensures-persist_as Status.draw g = Ensures-persist_if_final R P beyond g "draw"
  Ensures-persist_as _ g = Ensures-pure tt tt

  Ensures-play_answer :
      (g : Game) (r : Result (Game × String)) → Ensures R P (play_answer C beyond R g r) Any
  unfolding play_answer
  Ensures-play_answer g (ok (next, answer)) =
      Ensures-bind _ _ (Ensures-persist_as next.status next) (λ _ _. Ensures-pure _ tt)
  Ensures-play_answer g (err tx_failed) = Ensures-pure _ tt
  Ensures-play_answer g (err (illegal_move answer)) = Ensures-pure _ tt
  Ensures-play_answer g (err not_your_turn) = Ensures-pure _ tt
  Ensures-play_answer g (err e) = Ensures-raise _

  Ensures-play_found :
      (now : ℕ) (scope : Game → Bool) (user move_str : String) (found : Option Game)
      → Ensures R P (play_found C beyond R now scope user move_str found) Any
  unfolding play_found
  Ensures-play_found now scope user move_str none = Ensures-pure _ tt
  Ensures-play_found now scope user move_str (some g) =
      Ensures-bind _ _ (Ensures-attempt _ (Ensures-play_transaction now scope user move_str g))
        (λ r _. Ensures-play_answer g r)

  pub Ensures-play_move :
      (now : ℕ) (user move_str : String) → Ensures R P (play_move C beyond R now user move_str) Any
  unfolding play_move
  Ensures-play_move now user move_str =
      Ensures-if (trim_space user == "") _ _ (λ _. Ensures-raise _)
        (λ _.
          Ensures-bind _ _ (Ensures-get_active_game_by_user R P user)
            (λ found _. Ensures-play_found now (λ _. true) user move_str found))

  pub Ensures-play_move_by_room :
      (now : ℕ) (user room move_str : String)
      → Ensures R P (play_move_by_room C beyond R now user room move_str) Any
  unfolding play_move_by_room
  Ensures-play_move_by_room now user room move_str =
      Ensures-if (trim_space user == "" || trim_space room == "") _ _ (λ _. Ensures-raise _)
        (λ _.
          Ensures-bind _ _ (Ensures-get_active_game_by_user_in_room R P user room)
            (λ found _. Ensures-play_found now (still_in_room room) user move_str found))

  Ensures-resign_transaction :
      (now : ℕ) (scope : Game → Bool) (user : String) (g : Game)
      → Ensures R P (resign_transaction beyond R now scope user g) Any
  unfolding resign_transaction
  Ensures-resign_transaction now scope user g =
      Ensures-update_game R P (p.Known (game_key g.id)) (game_key g.id) (resign_body now scope user)
        (p.knows (game_key g.id)) (p.resign_keeps now scope user (game_key g.id))

  Ensures-resign_answer : (r : Result Game) → Ensures R P (resign_answer beyond R r) Any
  unfolding resign_answer
  Ensures-resign_answer (ok next) =
      Ensures-bind _ _ (Ensures-persist_if_final R P beyond next "resignation")
        (λ _ _. Ensures-pure _ tt)
  Ensures-resign_answer (err tx_failed) = Ensures-raise _
  Ensures-resign_answer (err e) = Ensures-raise _

  Ensures-resign_found :
      (now : ℕ) (scope : Game → Bool) (user : String) (found : Option Game)
      → Ensures R P (resign_found beyond R now scope user found) Any
  unfolding resign_found
  Ensures-resign_found now scope user none = Ensures-pure _ tt
  Ensures-resign_found now scope user (some g) =
      Ensures-bind _ _ (Ensures-attempt _ (Ensures-resign_transaction now scope user g))
        (λ r _. Ensures-resign_answer r)

  pub Ensures-resign : (now : ℕ) (user : String) → Ensures R P (resign beyond R now user) Any
  unfolding resign
  Ensures-resign now user =
      Ensures-bind _ _ (Ensures-get_active_game_by_user R P user)
        (λ found _. Ensures-resign_found now (λ _. true) user found)

  pub Ensures-resign_by_room :
      (now : ℕ) (user room : String) → Ensures R P (resign_by_room beyond R now user room) Any
  unfolding resign_by_room
  Ensures-resign_by_room now user room =
      Ensures-if (trim_space user == "" || trim_space room == "") _ _ (λ _. Ensures-raise _)
        (λ _.
          Ensures-bind _ _ (Ensures-get_active_game_by_user_in_room R P user room)
            (λ found _. Ensures-resign_found now (in_room room) user found))
