-- ===== src/PvpChess/Rules.antt =====
-- What one move and one resignation do to a game document (play_body, resign_body).
use Prim.Native.Char.{Char}
use cheese_kakao_talk_bot.Prelude.{
  ℕ, String, ◌||◌, ◌≡◌, Bool, true, false, length, Option-cases, none, some, inl, inr, ◌⊎◌, arith,
  nat_eq, eq_iff,
}
use cheese_kakao_talk_bot.Text.{trim_space, to_lower}
use cheese_kakao_talk_bot.Documents.{Color, Status, Game}
use cheese_kakao_talk_bot.Errors.{Error, ok, err, Result-cases}
use cheese_kakao_talk_bot.ChessLib.{ChessLib}
use cheese_kakao_talk_bot.PvpChess.Games.{is_active}
use cheese_kakao_talk_bot.PvpChess.Moves.{
  is_white, is_black, player_color, wrong_turn, last_move, after_move, finish_move, record_san,
  enter_move, reconstruct, apply_move, play_body,
}

pub is_active-eq : (s : Status) → is_active s ≡ true → s ≡ Status.active
is_active-eq s h = ground arith

-- The user sits on the side that is to move, or nobody's side is recorded as being to move.
pub record InTurn (cur : Game) (user : String) : Type 0 where
  pub as_white : cur.turn ≡ Color.white → cur.white_id ≡ user
  pub as_black : cur.turn ≡ Color.black → cur.black_id ≡ user
  pub seated : (cur.white_id ≡ user) ⊎ (cur.black_id ≡ user)

pub guards_InTurn :
    (cur : Game) (user : String)
    → (is_white (player_color cur user) || is_black (player_color cur user)) ≡ true
    → wrong_turn cur.turn (player_color cur user) ≡ false
    → InTurn cur user
unfolding player_color
guards_InTurn cur user seated turn =
    ground (arith, eq_iff cur.white_id user, eq_iff cur.black_id user)

-- How a text is entered as a move on a board: what is recorded in either notation, and the board
-- after it. A move in UCI notation that the board refuses leaves the board as it was.
pub data Entered (C : ChessLib) (beyond : Char → Char) (move_str : String) (start : C.Play)
    : C.Play → String → String → Type 0 where
  as_uci :
      {mv : C.Move} {board : C.Play}
      → C.decode_uci (C.position start) (to_lower beyond (trim_space move_str)) ≡ some mv
      → C.move start mv ≡ some board
      → Entered C beyond move_str start board
          (to_lower beyond (trim_space move_str))
          (C.encode_san (C.position start) mv)
  as_refused_uci :
      {mv : C.Move}
      → C.decode_uci (C.position start) (to_lower beyond (trim_space move_str)) ≡ some mv
      → C.move start mv ≡ none
      → Entered C beyond move_str start start
          (to_lower beyond (trim_space move_str))
          (C.encode_san (C.position start) mv)
  as_san :
      {mv : C.Move} {board : C.Play}
      → C.decode_uci (C.position start) (to_lower beyond (trim_space move_str)) ≡ none
      → C.push_san start (trim_space move_str) ≡ some board
      → last_move C board ≡ some mv
      → Entered C beyond move_str start board
          (C.move_string mv)
          (C.encode_san (C.position start) mv)

module _ (C : ChessLib) (beyond : Char → Char) (now : ℕ) where
  -- The text is entered as a move on the board of the moves so far, and recorded.
  pub record Moved (move_str : String) (cur next : Game) : Type 0 where
    pub start : C.Play
    pub board : C.Play
    pub uci : String
    pub san : String
    pub replayed : reconstruct C cur.moves_uci ≡ some start
    pub entered : Entered C beyond move_str start board uci san
    pub effect : next ≡ finish_move C now board uci san cur

  record_san-Moved :
      (move_str : String) (g g' : C.Play) (cur next : Game)
      → reconstruct C cur.moves_uci ≡ some g
      → C.decode_uci (C.position g) (to_lower beyond (trim_space move_str)) ≡ none
      → C.push_san g (trim_space move_str) ≡ some g'
      → record_san C now g cur g' ≡ ok next
      → Moved move_str cur next
  unfolding record_san
  record_san-Moved move_str g g' cur next r d q h = elim (Option-cases (last_move C g')) [
    | inl e ↦ absurd (ground (arith, e))
    | inr (last, e) ↦ record {
      start = g;
      board = g';
      uci = C.move_string last;
      san = C.encode_san (C.position g) last;
      replayed = r;
      entered = as_san d q e;
      effect = ground (arith, e);
    }
  ]

  decoded-Moved :
      (move_str : String) (cur : Game) (g : C.Play) (mv : C.Move) (next : Game)
      → reconstruct C cur.moves_uci ≡ some g
      → C.decode_uci (C.position g) (to_lower beyond (trim_space move_str)) ≡ some mv
      → next
        ≡ finish_move C now
            (after_move C g mv)
            (to_lower beyond (trim_space move_str))
            (C.encode_san (C.position g) mv)
            cur
      → Moved move_str cur next
  unfolding after_move
  decoded-Moved move_str cur g mv next r d h = elim (Option-cases (C.move g mv)) [
    | inl e ↦ record {
      start = g;
      board = g;
      uci = to_lower beyond (trim_space move_str);
      san = C.encode_san (C.position g) mv;
      replayed = r;
      entered = as_refused_uci d e;
      effect = ground (arith, e);
    }
    | inr (g', e) ↦ record {
      start = g;
      board = g';
      uci = to_lower beyond (trim_space move_str);
      san = C.encode_san (C.position g) mv;
      replayed = r;
      entered = as_uci d e;
      effect = ground (arith, e);
    }
  ]

  enter_move-Moved :
      (move_str : String) (cur : Game) (g : C.Play) (next : Game)
      → reconstruct C cur.moves_uci ≡ some g
      → enter_move C beyond now move_str cur g ≡ ok next
      → Moved move_str cur next
  unfolding enter_move
  enter_move-Moved move_str cur g next r h =
      elim (Option-cases (C.decode_uci (C.position g) (to_lower beyond (trim_space move_str)))) [
        | inr (mv, e) ↦ decoded-Moved move_str cur g mv next r e (ground (arith, e))
        | inl e ↦ elim (Option-cases (C.push_san g (trim_space move_str))) [
          | inl q ↦ absurd (ground (arith, e, q))
          | inr (g', q) ↦ record_san-Moved move_str g g' cur next r e q (ground (arith, e, q))
        ]
      ]

  pub apply_move-Moved :
      (move_str : String) (cur next : Game)
      → apply_move C beyond now move_str cur ≡ ok next
      → Moved move_str cur next
  unfolding apply_move
  apply_move-Moved move_str cur next h = elim (Option-cases (reconstruct C cur.moves_uci)) [
    | inl e ↦ absurd (ground (arith, e))
    | inr (g, e) ↦ enter_move-Moved move_str cur g next e (ground (arith, e))
  ]

  module _ (scope : Game → Bool) (user move_str : String) (n : ℕ) (cur next : Game) where
    pub passes :
        play_body C beyond now scope user move_str n cur ≡ ok next
        → (is_active cur.status ≡ true)
          × (nat_eq (length cur.moves_uci) n ≡ true)
          × (scope cur ≡ true)
          × ((is_white (player_color cur user) || is_black (player_color cur user)) ≡ true)
          × (wrong_turn cur.turn (player_color cur user) ≡ false)
          × (apply_move C beyond now move_str cur ≡ ok next)
    unfolding play_body
    passes h = ground arith

  -- A move that cannot be applied is an error of the transaction, whatever its guards say.
  pub play_body-err :
      (scope : Game → Bool) (user move_str : String) (n : ℕ) (cur : Game) {e : Error}
      → apply_move C beyond now move_str cur ≡ err e
      → (r : Error) × (play_body C beyond now scope user move_str n cur ≡ err r)
  play_body-err scope user move_str n cur h =
      elim (Result-cases (play_body C beyond now scope user move_str n cur)) [
        | inr q ↦ q
        | inl (a, q) ↦ absurd (cc (h, (passes scope user move_str n cur a q).5))
      ]
