-- ===== src/PvpChess/Replay.antt =====
-- The stored moves of a game replay to its board: reconstruct after a move.
use Prim.Native.Char.{Char}
use cheese_kakao_talk_bot.Prelude.{
  ℕ, String, ◌≡◌, refl, sym, ◌∙◌, Bool, List, [], ◌∷◌, ◌++◌, none, some, ◌⊎◌, inl, inr, arith,
  Option-cases,
}
use cheese_kakao_talk_bot.Text.{trim_space, to_lower}
use cheese_kakao_talk_bot.Documents.{Game}
use cheese_kakao_talk_bot.Errors.{ok}
use cheese_kakao_talk_bot.ChessLib.{
  ChessLib, and_then, Outcome, white_won, black_won, draw, no_outcome,
}
use cheese_kakao_talk_bot.PvpChess.Moves.{
  conclude, color_from, finish_move, last_move, replay, reconstruct, play_body,
}
use cheese_kakao_talk_bot.PvpChess.Rules.{
  passes, Entered, as_uci, as_refused_uci, as_san, apply_move-Moved,
}

module _ (C : ChessLib) where
  replay-append :
      (g : C.Play) (ss : List String) (s : String)
      → replay C g (ss ++ s ∷ []) ≡ and_then (replay C g ss) (λ b. C.push_uci b s)
  unfolding replay
  replay-append g [] s = ground arith
  replay-append g (t ∷ ss) s = elim (Option-cases (C.push_uci g t)) [
    | inl e ↦ ground (arith, e)
    | inr (b, e) ↦ ground (arith, e, replay-append b ss s)
  ]

  -- What the moves of a game replay to, one move later.
  pub reconstruct-append :
      (ss : List String) (s : String) (b : C.Play)
      → reconstruct C ss ≡ some b
      → reconstruct C (ss ++ s ∷ []) ≡ and_then (C.decode_uci (C.position b) s) (C.move b)
  unfolding reconstruct
  reconstruct-append ss s b h = rw (replay-append C.new_game ss s, h) (C.push_uci_lem b s)

  conclude-moves_uci : (o : Outcome) (g : Game) → (conclude o g).moves_uci ≡ g.moves_uci
  unfolding conclude
  conclude-moves_uci white_won g = refl
  conclude-moves_uci black_won g = refl
  conclude-moves_uci draw g = refl
  conclude-moves_uci no_outcome g = refl

  pub finish_move-moves_uci :
      (now : ℕ) (b : C.Play) (uci san : String) (cur : Game)
      → (finish_move C now b uci san cur).moves_uci ≡ cur.moves_uci ++ uci ∷ []
  unfolding finish_move
  finish_move-moves_uci now b uci san cur = conclude-moves_uci (C.outcome b) _

  conclude-turn : (o : Outcome) (g : Game) → (conclude o g).turn ≡ g.turn
  unfolding conclude
  conclude-turn white_won g = refl
  conclude-turn black_won g = refl
  conclude-turn draw g = refl
  conclude-turn no_outcome g = refl

  finish_move-turn :
      (now : ℕ) (b : C.Play) (uci san : String) (cur : Game)
      → (finish_move C now b uci san cur).turn ≡ color_from (C.turn (C.position b))
  unfolding finish_move
  finish_move-turn now b uci san cur = conclude-turn (C.outcome b) _

  -- The moves of a game replay, and its turn is that of the board they lead to.
  pub record IsReplayable (g : Game) : Type 0 where
    pub board : C.Play
    pub replays : reconstruct C g.moves_uci ≡ some board
    pub turn : g.turn ≡ color_from (C.turn (C.position board))

  -- The UCI text of a move that was made by SAN makes it again.
  pub record IsCoherent : Type 0 where
    pub san_again :
        (g g' : C.Play) (s : String) (mv : C.Move)
        → C.push_san g s ≡ some g'
        → last_move C g' ≡ some mv
        → C.push_uci g (C.move_string mv) ≡ some g'

  module _ (beyond : Char → Char) (now : ℕ) where
    finish_move-IsReplayable :
        (b b' : C.Play) (uci san : String) (cur : Game)
        → reconstruct C cur.moves_uci ≡ some b
        → and_then (C.decode_uci (C.position b) uci) (C.move b) ≡ some b'
        → IsReplayable (finish_move C now b' uci san cur)
    finish_move-IsReplayable b b' uci san cur h k = record {
      board = b';
      replays =
          rw (finish_move-moves_uci now b' uci san cur)
            (reconstruct-append cur.moves_uci uci b h ∙ k);
      turn = finish_move-turn now b' uci san cur;
    }

    -- The text decodes, on the board of the game, to a move that the library then refuses.
    pub record Unmade (move_str : String) (cur : Game) : Type 0 where
      pub board : C.Play
      pub mv : C.Move
      pub replays : reconstruct C cur.moves_uci ≡ some board
      pub decodes :
          C.decode_uci (C.position board) (to_lower beyond (trim_space move_str)) ≡ some mv
      pub refused : C.move board mv ≡ none

    Entered-IsReplayable :
        (coherent : IsCoherent) (move_str : String) (b b' : C.Play) (uci san : String) (cur : Game)
        → reconstruct C cur.moves_uci ≡ some b
        → Entered C beyond move_str b b' uci san
        → IsReplayable (finish_move C now b' uci san cur) ⊎ Unmade move_str cur
    Entered-IsReplayable coherent move_str b b' uci san cur h (as_uci d e) =
        inl (finish_move-IsReplayable b b' uci san cur h (rw d e))
    Entered-IsReplayable coherent move_str b b' uci san cur h (as_refused_uci {mv = mv} d e) =
        inr (record { board = b; mv = mv; replays = h; decodes = d; refused = e })
    Entered-IsReplayable coherent move_str b b' uci san cur h (as_san {mv = mv} d q e) = inl (
        finish_move-IsReplayable b b' uci san cur h (
          sym (C.push_uci_lem b (C.move_string mv))
          ∙ coherent.san_again b b' (trim_space move_str) mv q e))

    -- A move keeps a game replayable, with the turn of its board, unless its text decodes to a move
    -- that the library then refuses; this if the UCI text of a move that was made by SAN makes it
    -- again.
    pub play_body-IsReplayable :
        (scope : Game → Bool) (user move_str : String) (n : ℕ) (cur next : Game)
        → IsCoherent
        → play_body C beyond now scope user move_str n cur ≡ ok next
        → IsReplayable next ⊎ Unmade move_str cur
    play_body-IsReplayable scope user move_str n cur next coherent h =
        let m =
          apply_move-Moved C beyond now move_str cur next
            (passes C beyond now scope user move_str n cur next h).5 in
        rw (m.effect) (
          Entered-IsReplayable coherent move_str m.start m.board m.uci m.san cur m.replayed
            m.entered)
