-- ===== src/PvpChess/Moves.antt =====
-- PlayMove and PlayMoveByRoom (internal/pvpchess/manager.go). Their transactions differ by the
-- room test alone, which is the argument `scope`. `play_body` is what a transaction computes from
-- the game that it reads; `play` runs it under WATCH and turns its errors into answers.
use Prim.Native.Char.{Char}
use cheese_kakao_talk_bot.Prelude.{
  ℕ, String, ◌⧺◌, Bool, true, false, ◌&&◌, ◌||◌, ◌==◌, not, List, [], ◌∷◌, ◌++◌, Option, none, some,
  length, nat_eq, if◌then◌else◌,
}
use cheese_kakao_talk_bot.Text.{trim_space, to_lower}
use cheese_kakao_talk_bot.Documents.{Color, Status, Game}
use cheese_kakao_talk_bot.Errors.{
  Error, Result, ok, err, tx_failed, user_not_in_game, game_not_in_room, reconstruct_failed,
  not_your_turn, illegal_move, invalid_user, invalid_parameters,
}
use cheese_kakao_talk_bot.Redis.{Redis}
use cheese_kakao_talk_bot.Action.{M, pure, raise, attempt, ◌>>=◌, ◌>>◌}
use cheese_kakao_talk_bot.ChessLib.{
  ChessLib, Side, white_side, Outcome, white_won, black_won, draw, no_outcome,
}
use cheese_kakao_talk_bot.PvpChess.Games.{
  game_key, is_active, update_game, get_active_game_by_user, get_active_game_by_user_in_room,
  persist_if_final,
}

abbrev pub is_white : Color → Bool
is_white Color.white = true
is_white _ = false

abbrev pub is_black : Color → Bool
is_black Color.black = true
is_black _ = false

-- The colour of a user in a game, `unset` if he is not in it.
unfoldable pub player_color : Game → String → Color
player_color g user =
    if g.white_id == user
    then Color.white
    else if g.black_id == user
    then Color.black
    else Color.unset

unfoldable pub color_from : Side → Color
color_from white_side = Color.white
color_from _ = Color.black

abbrev pub wrong_turn : Color → Color → Bool
wrong_turn turn player =
    is_white turn && not (is_white player) || is_black turn && not (is_black player)

unfoldable pub conclude : Outcome → Game → Game
conclude white_won g = record g { status = Status.finished; winner = g.white_id; outcome = "white" }
conclude black_won g = record g { status = Status.finished; winner = g.black_id; outcome = "black" }
conclude draw g = record g { status = Status.draw; outcome = "draw" }
conclude no_outcome g = g

module _ (C : ChessLib) where
  open C use {Play, Move, position, turn, fen, outcome, decode_uci, encode_san, push_san, moves}

  unfoldable pub replay : Play → List String → Option Play
  replay g [] = some g
  replay g (s ∷ ss) = elim (C.push_uci g s) [ none ↦ none | some g' ↦ replay g' ss ]

  unfoldable pub reconstruct : List String → Option Play
  unfolding replay
  reconstruct ss = replay C.new_game ss

  abbrev pub last_of : List Move → Option Move
  last_of [] = none
  last_of (m ∷ ms) = elim (last_of ms) [ none ↦ some m | some l ↦ some l ]

  unfoldable pub last_move : Play → Option Move
  last_move g = last_of (moves g)

  -- game.Move(mv, nil) with its error dropped
  unfoldable pub after_move : Play → Move → Play
  after_move g mv = elim (C.move g mv) [ none ↦ g | some g' ↦ g' ]

  -- The game document after a move was recorded and the board is `g`.
  unfoldable pub finish_move : ℕ → Play → String → String → Game → Game
  unfolding conclude color_from
  finish_move now g uci san cur = conclude (outcome g) (record cur {
    moves_uci = cur.moves_uci ++ uci ∷ [];
    moves_san = cur.moves_san ++ san ∷ [];
    fen = fen g;
    turn = color_from (turn (position g));
    updated_at = now;
  })

  abbrev pub bad_move : Error
  bad_move = illegal_move "유효하지 않은 수입니다."

  unfoldable pub record_san : ℕ → Play → Game → Play → Result Game
  unfolding last_move finish_move
  record_san now g cur g' = elim (last_move g') [
    | none ↦ err bad_move
    | some last ↦ ok (finish_move now g' (C.move_string last) (encode_san (position g) last) cur)
  ]

  -- A text in UCI notation is tried first, then SAN.
  unfoldable pub enter_move : (Char → Char) → ℕ → String → Game → Play → Result Game
  unfolding after_move finish_move record_san
  enter_move beyond now move_str cur g =
      let raw = trim_space move_str in
      let uci = to_lower beyond raw in
      if uci == "" then err (illegal_move "잘못된 수 입력입니다.") else elim (decode_uci (position g) uci) [
        | some mv ↦ ok (finish_move now (after_move g mv) uci (encode_san (position g) mv) cur)
        | none ↦ elim (push_san g raw) [ none ↦ err bad_move | some g' ↦ record_san now g cur g' ]
      ]

  unfoldable pub apply_move : (Char → Char) → ℕ → String → Game → Result Game
  unfolding reconstruct enter_move
  apply_move beyond now move_str cur = elim (reconstruct cur.moves_uci) [
    | none ↦ err reconstruct_failed
    | some g ↦ enter_move beyond now move_str cur g
  ]

  -- The transaction on the game that it reads: the new game, or why there is none.
  unfoldable pub play_body :
      (Char → Char) → ℕ → (Game → Bool) → String → String → ℕ → Game → Result Game
  unfolding apply_move player_color
  play_body beyond now scope user move_str old_len cur =
      if not (is_active cur.status)
      then err tx_failed
      else if not (nat_eq (length cur.moves_uci) old_len)
      then err tx_failed
      else if not (scope cur)
      then err game_not_in_room
      else if not (is_white (player_color cur user) || is_black (player_color cur user))
      then err user_not_in_game
      else if wrong_turn cur.turn (player_color cur user)
      then err not_your_turn
      else apply_move beyond now move_str cur

-- The transaction's room test trims both sides.
unfoldable pub still_in_room : String → Game → Bool
still_in_room room cur =
    trim_space cur.origin_room == trim_space room || trim_space cur.resolve_room == trim_space room

module _ (C : ChessLib) (beyond : Char → Char) (R : Redis) where
  -- "<name>: <move>"
  unfoldable pub move_text : Game → String → String → String
  unfolding player_color
  move_text g user move_str =
      (if is_black (player_color g user) then g.black_name else g.white_name)
      ⧺ (": " ⧺ trim_space move_str)

  -- The closure under WATCH, for the game `g` that was found before.
  unfoldable pub play_transaction : ℕ → (Game → Bool) → String → String → Game → M R (Game × String)
  unfolding play_body update_game
  play_transaction now scope user move_str g = do
    next ←
        update_game R (game_key g.id)
          (play_body C beyond now scope user move_str (length g.moves_uci))
    pure (next, move_text next user move_str)

  unfoldable pub persist_as : Status → Game → M R (Unit {0})
  persist_as Status.finished g = persist_if_final beyond R g "checkmate"
  persist_as Status.draw g = persist_if_final beyond R g "draw"
  persist_as _ g = pure tt

  -- The errors that the user is told about come with the game as it was found.
  unfoldable pub play_answer : Game → Result (Game × String) → M R (Option Game × String)
  unfolding persist_as persist_if_final
  play_answer g (ok (next, text)) = do persist_as next.status next; pure (some next, text)
  play_answer g (err tx_failed) = pure (some g, "동시 명령이 감지되어 처리되지 않았습니다. 다시 시도해주세요.")
  play_answer g (err (illegal_move text)) =
      pure (some g, if trim_space text == "" then "유효하지 않은 수입니다." else text)
  play_answer g (err not_your_turn) = pure (some g, "지금은 상대 차례입니다.")
  play_answer g (err e) = raise e

  unfoldable pub play_found :
      ℕ → (Game → Bool) → String → String → Option Game → M R (Option Game × String)
  unfolding play_transaction play_answer
  play_found now scope user move_str none = pure (none, "")
  play_found now scope user move_str (some g) = do
    r ← attempt (play_transaction now scope user move_str g)
    play_answer g r

  unfoldable pub play_move : ℕ → String → String → M R (Option Game × String)
  unfolding play_found
  play_move now user move_str =
      if trim_space user == ""
      then raise invalid_user
      else do found ← get_active_game_by_user R user; play_found now (λ _. true) user move_str found

  unfoldable pub play_move_by_room : ℕ → String → String → String → M R (Option Game × String)
  unfolding play_found still_in_room
  play_move_by_room now user room move_str =
      if trim_space user == "" || trim_space room == "" then raise invalid_parameters else do
        found ← get_active_game_by_user_in_room R user room
        play_found now (still_in_room room) user move_str found
