-- ===== src/PvpChess/Stuck.antt =====
-- The error of `game.Move(mv, nil)` is dropped in PlayMove and PlayMoveByRoom: what follows when
-- the library decodes a text in UCI notation and then refuses the move.
use Prim.Native.Char.{Char}
use cheese_kakao_talk_bot.Prelude.{
  ℕ, String, ◌≡◌, ◌≢◌, ◌∙◌, Bool, true, none, some, arith, eq-false_of_ne, length,
}
use cheese_kakao_talk_bot.Text.{trim_space, to_lower}
use cheese_kakao_talk_bot.Documents.{Color, Status, Game}
use cheese_kakao_talk_bot.Errors.{Error, ok, err, reconstruct_failed}
use cheese_kakao_talk_bot.ChessLib.{ChessLib}
use cheese_kakao_talk_bot.PvpChess.Moves.{
  finish_move, after_move, enter_move, reconstruct, apply_move, play_body, player_color,
}
use cheese_kakao_talk_bot.PvpChess.Rules.{play_body-err}
use cheese_kakao_talk_bot.PvpChess.Replay.{reconstruct-append, finish_move-moves_uci}

module _ (C : ChessLib) (beyond : Char → Char) (now : ℕ) (move_str : String) (cur : Game) where
  -- The text is entered and decodes at the board of the game, and the library refuses the move.
  pub record IsRefused : Type 0 where
    pub board : C.Play
    pub mv : C.Move
    pub replays : reconstruct C cur.moves_uci ≡ some board
    pub entered : to_lower beyond (trim_space move_str) ≢ ""
    pub decodes : C.decode_uci (C.position board) (to_lower beyond (trim_space move_str)) ≡ some mv
    pub refused : C.move board mv ≡ none

  module _ (r : IsRefused) where
    abbrev pub stuck_game : Game
    stuck_game =
        finish_move C now r.board (to_lower beyond (trim_space move_str))
          (C.encode_san (C.position r.board) r.mv) cur

    apply_move-stuck : apply_move C beyond now move_str cur ≡ ok stuck_game
    unfolding apply_move enter_move after_move
    apply_move-stuck = ground (
      arith,
      r.replays,
      eq-false_of_ne (to_lower beyond (trim_space move_str)) "" r.entered,
      r.decodes,
      r.refused,
    )

    reconstruct-stuck : reconstruct C stuck_game.moves_uci ≡ none
    reconstruct-stuck =
        rw
          (finish_move-moves_uci C now r.board (to_lower beyond (trim_space move_str))
            (C.encode_san (C.position r.board) r.mv) cur)
          (reconstruct-append C cur.moves_uci _ r.board r.replays ∙ rw r.decodes r.refused)

    apply_move-never :
        (beyond' : Char → Char) (now' : ℕ) (move' : String)
        → apply_move C beyond' now' move' stuck_game ≡ err reconstruct_failed
    unfolding apply_move
    apply_move-never beyond' now' move' = ground (arith, reconstruct-stuck)

    -- The player to move of an active game enters a text that decodes to a move which the library
    -- refuses: the transaction accepts it, and every later move in the game, by anybody, fails.
    pub play_body-stuck :
        (scope : Game → Bool) (user : String)
        → cur.status ≡ Status.active
        → scope cur ≡ true
        → player_color cur user ≡ cur.turn
        → cur.turn ≢ Color.unset
        → (play_body C beyond now scope user move_str (length cur.moves_uci) cur ≡ ok stuck_game)
          × ((scope' : Game → Bool) (user' move' : String) (now' n' : ℕ)
              → (e : Error) × (play_body C beyond now' scope' user' move' n' stuck_game ≡ err e))
    unfolding play_body
    play_body-stuck scope user active in_scope turn set = (
      ground (arith, apply_move-stuck),
      λ scope' user' move' now' n'.
          play_body-err C beyond now' scope' user' move' n' stuck_game
            (apply_move-never beyond now' move'),
    )
