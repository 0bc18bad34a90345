-- ===== src/PvpChess/Effects.antt =====
-- The document after a move or a resignation: what changes, what stays, and that it is well formed.
use Prim.Native.Char.{Char}
use cheese_kakao_talk_bot.Prelude.{
  ℕ, String, ◌≡◌, ◌≢◌, refl, Bool, true, [], ◌∷◌, ◌++◌, length, length-append, ◌⊎◌, arith, eq_iff,
  some,
}
use cheese_kakao_talk_bot.Documents.{Status, Game, Doc, game, meta, blank, as_game}
use cheese_kakao_talk_bot.Errors.{ok}
use cheese_kakao_talk_bot.ChessLib.{ChessLib, Outcome, white_won, black_won, draw, no_outcome}
use cheese_kakao_talk_bot.PvpChess.Create.{Fresh, Seats, new_game}
use cheese_kakao_talk_bot.PvpChess.Moves.{conclude, finish_move, play_body, color_from, reconstruct}
use cheese_kakao_talk_bot.PvpChess.Resign.{resign_body}
use cheese_kakao_talk_bot.PvpChess.Rules.{
  InTurn, guards_InTurn, Entered, Moved, apply_move-Moved, passes, is_active-eq,
}

-- A stored game: as many moves in either notation, and a winner and an outcome that fit its status.
pub record WfGame (g : Game) : Type 0 where
  pub balanced : length g.moves_uci ≡ length g.moves_san
  pub undecided : g.status ≡ Status.active → (g.winner ≡ "") × (g.outcome ≡ "")
  pub won :
      g.status ≡ Status.finished
      → ((g.winner ≡ g.white_id) × (g.outcome ≡ "white"))
        ⊎ ((g.winner ≡ g.black_id) × (g.outcome ≡ "black"))
  pub drawn : g.status ≡ Status.draw → (g.winner ≡ "") × (g.outcome ≡ "draw")
  pub gave_up : g.status ≡ Status.resigned → g.outcome ≡ "resign"

-- The players, their rooms and the start of a game never change.
pub record SameMatch (cur next : Game) : Type 0 where
  pub id : next.id ≡ cur.id
  pub white_id : next.white_id ≡ cur.white_id
  pub white_name : next.white_name ≡ cur.white_name
  pub black_id : next.black_id ≡ cur.black_id
  pub black_name : next.black_name ≡ cur.black_name
  pub origin_room : next.origin_room ≡ cur.origin_room
  pub resolve_room : next.resolve_room ≡ cur.resolve_room
  pub created_at : next.created_at ≡ cur.created_at

-- What the outcome of the board makes of an active game.
pub record Decided (o : Outcome) (cur next : Game) : Type 0 where
  pub goes_on : o ≡ no_outcome → (next.status ≡ Status.active) × (next.winner ≡ cur.winner)
  pub white_wins :
      o ≡ white_won
      → (next.status ≡ Status.finished) × (next.winner ≡ cur.white_id) × (next.outcome ≡ "white")
  pub black_wins :
      o ≡ black_won
      → (next.status ≡ Status.finished) × (next.winner ≡ cur.black_id) × (next.outcome ≡ "black")
  pub is_drawn : o ≡ draw → (next.status ≡ Status.draw) × (next.outcome ≡ "draw")

module _ (C : ChessLib) (beyond : Char → Char) (now : ℕ) where
  -- One move more, which the text is on the board of the moves before, the board after it, and the
  -- verdict.
  pub record Follows (move_str : String) (cur next : Game) : Type 0 where
    pub start : C.Play
    pub board : C.Play
    pub uci : String
    pub san : String
    pub replayed : reconstruct C cur.moves_uci ≡ some start
    pub entered : Entered C beyond move_str start board uci san
    pub same : SameMatch cur next
    pub moves_uci : next.moves_uci ≡ cur.moves_uci ++ uci ∷ []
    pub moves_san : next.moves_san ≡ cur.moves_san ++ san ∷ []
    pub fen : next.fen ≡ C.fen board
    pub turn : next.turn ≡ color_from (C.turn (C.position board))
    pub updated_at : next.updated_at ≡ now
    pub decided : Decided (C.outcome board) cur next

  conclude-WfGame :
      (o : Outcome) (m : Game) → m.status ≡ Status.active → WfGame m → WfGame (conclude o m)
  unfolding conclude
  conclude-WfGame white_won m a w = ground (arith)
  conclude-WfGame black_won m a w = ground (arith)
  conclude-WfGame draw m a w = ground (arith)
  conclude-WfGame no_outcome m a w = w

  module _ (board : C.Play) (uci san : String) (cur : Game) where
    abbrev finished_move : Game
    finished_move = finish_move C now board uci san cur

    finish_move-SameMatch : SameMatch cur finished_move
    unfolding finish_move
    finish_move-SameMatch = ground arith

    finish_move-Decided : cur.status ≡ Status.active → Decided (C.outcome board) cur finished_move
    unfolding finish_move
    finish_move-Decided a = ground arith

    finish_move-Follows :
        (move_str : String) (start : C.Play)
        → reconstruct C cur.moves_uci ≡ some start
        → Entered C beyond move_str start board uci san
        → cur.status ≡ Status.active
        → Follows move_str cur finished_move
    unfolding finish_move
    finish_move-Follows move_str start r e a = record {
      start = start;
      replayed = r;
      entered = e;
      board = board;
      uci = uci;
      san = san;
      same = finish_move-SameMatch;
      moves_uci = ground arith;
      moves_san = ground arith;
      fen = ground arith;
      turn = ground arith;
      updated_at = ground arith;
      decided = finish_move-Decided a;
    }

    finish_move-WfGame : cur.status ≡ Status.active → WfGame cur → WfGame finished_move
    unfolding finish_move
    finish_move-WfGame a w = conclude-WfGame (C.outcome board) _ a (record {
      balanced = omega (
        arith,
        length-append cur.moves_uci (uci ∷ []),
        length-append cur.moves_san (san ∷ []),
        w.balanced,
      );
      undecided = w.undecided;
      won = w.won;
      drawn = w.drawn;
      gave_up = w.gave_up;
    })

module _ (C : ChessLib) (beyond : Char → Char) (now : ℕ) (scope : Game → Bool)
    (user move_str : String) (n : ℕ) (cur next : Game)
    (h : play_body C beyond now scope user move_str n cur ≡ ok next) where
  was_active : cur.status ≡ Status.active
  was_active = is_active-eq cur.status (passes C beyond now scope user move_str n cur next h).0

  moved : Moved C beyond now move_str cur next
  moved =
      apply_move-Moved C beyond now move_str cur next
        (passes C beyond now scope user move_str n cur next h).5

  -- A transaction that succeeds found an active game in its scope, in which the user was to move,
  -- and whose moves can be replayed; its result is that game with the move that the text is on the
  -- replayed board, in UCI notation or else in standard notation, and the verdict of the board after
  -- it, which is the board before if the library refuses a move that it decoded.
  pub play_body-Follows :
      (cur.status ≡ Status.active)
      × (scope cur ≡ true)
      × InTurn cur user
      × Follows C beyond now move_str cur next
  play_body-Follows =
      let p = passes C beyond now scope user move_str n cur next h in
      (
        was_active,
        p.2,
        guards_InTurn cur user p.3 p.4,
        rw (moved.effect) (
            finish_move-Follows C beyond now moved.board moved.uci moved.san cur move_str
              moved.start moved.replayed moved.entered was_active),
      )

  pub play_body-WfGame : WfGame cur → WfGame next
  play_body-WfGame w =
      rw (moved.effect)
        (finish_move-WfGame C beyond now moved.board moved.uci moved.san cur was_active w)

-- What a resignation leaves: the match and its moves as they were, and the other player as winner.
pub record Resigned (user : String) (cur next : Game) : Type 0 where
  pub was_active : cur.status ≡ Status.active
  pub same : SameMatch cur next
  pub moves_uci : next.moves_uci ≡ cur.moves_uci
  pub moves_san : next.moves_san ≡ cur.moves_san
  pub status : next.status ≡ Status.resigned
  pub outcome : next.outcome ≡ "resign"
  pub white_resigns : cur.white_id ≡ user → next.winner ≡ cur.black_id
  pub black_resigns : cur.white_id ≢ user → cur.black_id ≡ user → next.winner ≡ cur.white_id
  pub stranger : cur.white_id ≢ user → cur.black_id ≢ user → next.winner ≡ ""

module _ (now : ℕ) (scope : Game → Bool) (user : String) (cur next : Game)
    (h : resign_body now scope user cur ≡ ok next) where
  -- A resignation that succeeds ends an active game of the scope in favour of the opponent; of a
  -- user that is neither player it leaves the winner empty.
  pub resign_body-Resigned : (scope cur ≡ true) × Resigned user cur next
  unfolding resign_body
  resign_body-Resigned = (
    ground arith,
    record {
      was_active = is_active-eq cur.status (ground arith);
      same = ground arith;
      moves_uci = ground arith;
      moves_san = ground arith;
      status = ground arith;
      outcome = ground arith;
      white_resigns = λ e. ground (arith, eq_iff cur.white_id user);
      black_resigns = λ e f. ground (arith, eq_iff cur.white_id user, eq_iff cur.black_id user);
      stranger = λ e f. ground (arith, eq_iff cur.white_id user, eq_iff cur.black_id user);
    },
  )

  pub resign_body-WfGame : WfGame cur → WfGame next
  unfolding resign_body
  resign_body-WfGame w = ground arith

pub new_game-WfGame :
    (f : Fresh) (s : Seats) (origin resolve : String) → WfGame (new_game f s origin resolve)
unfolding new_game
new_game-WfGame f s origin resolve = ground arith

-- Documents of the other kinds read as games without moves or status.
pub as_game-WfGame : (x : Doc) → ((g : Game) → x ≡ game g → WfGame g) → WfGame (as_game x)
unfolding as_game
as_game-WfGame (game g) h = h g refl
as_game-WfGame (meta m) h = ground arith
as_game-WfGame blank h = ground arith
