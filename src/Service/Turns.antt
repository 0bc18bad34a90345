-- ===== src/Service/Turns.antt =====
-- What one turn of Play (internal/service/chess/service.go) does to the stored sessions, and what
-- its parts leave.
use cheese_kakao_talk_bot.Prelude.{
  ℕ, String, ◌==◌, ◌≡◌, refl, sym, ◌∙◌, ap, ◌⊎◌, Bool, true, false, not, ◌||◌, List, [], ◌∷◌, ◌++◌,
  All, Option, none, some, if◌then◌else◌,
}
use cheese_kakao_talk_bot.Presets.Registry.{Edited, refused, edited, set_preset_opening_style}
use cheese_kakao_talk_bot.Service.Types.{
  SessionPayload, EvaluateResult, MoveSummary, AssistSuggestion, Error,
}
use cheese_kakao_talk_bot.Service.State.{Result, ok, err, Cache, put, Data}
use cheese_kakao_talk_bot.Service.Environment.{Environment, Moment}
use cheese_kakao_talk_bot.Service.Labels.{normalized, session_key}
use cheese_kakao_talk_bot.Service.Profiles.{use_edited}
use cheese_kakao_talk_bot.Service.Sessions.{save_session, delete_session, replay_session}
use cheese_kakao_talk_bot.Service.Assist.{
  map_engine_error, populate_auto_assist, is_white_side, compute_assist_suggestion, with_suggestion,
}
use cheese_kakao_talk_bot.Service.Play.{or_error, decode_move, uci_text}
use cheese_kakao_talk_bot.Service.Triples.{Triple, Unsent, Triple-call}
use cheese_kakao_talk_bot.Service.Keeping.{Any, OfOk}
use cheese_kakao_talk_bot.Service.Steps.{Allows}

pub All-Any : {A : Type 0} (xs : List A) → All (λ x. Unit {0}) xs
All-Any [] = tt
All-Any (x ∷ xs) = (tt, All-Any xs)

module _ (E : Environment) (s0 : Cache SessionPayload) where
  -- The sessions are those of before.
  pub record Quiet (d : Data E.floats) : Type 0 where
    pub same : d.sessions ≡ s0

  pub use_edited-Quiet :
      (e : Edited E.floats) (d : Data E.floats) → Quiet d → Quiet (use_edited e d).1
  use_edited-Quiet (refused e) d q = q
  use_edited-Quiet (edited r) d q = record { same = q.same }

  pub allows_Quiet : Allows E Quiet Any
  allows_Quiet = record {
    reads = record {
      cached = λ d q k p e. tt;
      stored = λ d q. All-Any d.repo.profiles;
      put_cached = λ d k p w q. record { same = q.same };
    };
    put_repo = λ d r w q. record { same = q.same };
    restyle = λ d name style q.
        use_edited-Quiet (set_preset_opening_style E.floats E.beyond E.styles d.registry name style)
          d q;
    counted = λ before id preset o now h. tt;
  }

-- What the engine adds to the moves: nothing if it names no move, and otherwise the move that the
-- text it chose is on the board.
pub data Answered (E : Environment) (board : E.chess.Play) (chosen : String) (moves : List String)
    : String → List String → Type 0 where
  silent : (normalized E chosen == "") ≡ true → Answered E board chosen moves "" moves
  replied :
      {mv : E.chess.Move} {board' : E.chess.Play}
      → (normalized E chosen == "") ≡ false
      → E.chess.decode_uci (E.chess.position board) (normalized E chosen) ≡ some mv
      → E.chess.move board mv ≡ some board'
      → Answered E board chosen moves
          (uci_text E (E.chess.position board) mv)
          (moves ++ (uci_text E (E.chess.position board) mv ∷ []))

-- One turn of a session: the text is a move on the board of the moves of before, the player's move
-- is that move, the engine is asked with it added, and its answer is added in turn.
pub record Turn (E : Environment) (t : Moment) (old : SessionPayload) (text : String)
    (player engine : String) (after : List String) : Type 0 where
  pub start : E.chess.Play
  pub move : E.chess.Move
  pub board : E.chess.Play
  pub evaluation : EvaluateResult
  pub replayed : replay_session E old.moves ≡ ok start
  pub read : decode_move E (E.chess.position start) text ≡ ok move
  pub made : E.chess.move start move ≡ some board
  pub player_text : player ≡ uci_text E (E.chess.position start) move
  pub asked : map_engine_error (t.evaluate old.preset (old.moves ++ (player ∷ []))) ≡ ok evaluation
  pub answered : Answered E board evaluation.chosen (old.moves ++ (player ∷ [])) engine after

pub OfOk-or_error : {A : Type 0} (e : Error) (o : Option A) → OfOk (λ a. o ≡ some a) (or_error e o)
OfOk-or_error e none = tt
OfOk-or_error e (some a) = refl

-- What is known of the player's text, the engine's and the moves.
abbrev pub Wanted : Type 1
Wanted = String → String → List String → Type 0

-- A finished game leaves no session, or the one of before when it could not be deleted. A game that
-- goes on is stored with moves that are as wanted.
pub record Follows (E : Environment) (s0 : Cache SessionPayload) (key : String) (W : Wanted)
    (out : MoveSummary) (d : Data E.floats) : Type 0 where
  pub ended : out.finished ≡ true → (d.sessions ≡ s0) ⊎ (d.sessions ≡ put key none s0)
  pub goes_on :
      out.finished ≡ false
      → (q : SessionPayload) × (d.sessions ≡ put key (some q) s0)
        × W out.player_uci out.engine_uci q.moves

-- The summaries agree in what Follows reads.
pub record Alike (a b : MoveSummary) : Type 0 where
  pub finished_eq : a.finished ≡ b.finished
  pub player_eq : a.player_uci ≡ b.player_uci
  pub engine_eq : a.engine_uci ≡ b.engine_uci

abbrev alike : (a : MoveSummary) → Alike a a
alike a = record { finished_eq = refl; player_eq = refl; engine_eq = refl }

pub with_suggestion-Alike :
    (E : Environment) (r : Result AssistSuggestion) (s : MoveSummary)
    → Alike (with_suggestion E r s) s
with_suggestion-Alike E (ok a) s = record { finished_eq = refl; player_eq = refl; engine_eq = refl }
with_suggestion-Alike E (err e) s = alike s

pub if-Alike :
    (b : Bool) (x y s : MoveSummary) → Alike x s → Alike y s → Alike (if b then x else y) s
if-Alike true x y s hx hy = hx
if-Alike false x y s hx hy = hy

pub populate_auto_assist-Alike :
    (E : Environment) (t : Moment) (p : SessionPayload) (g : E.chess.Play) (s : MoveSummary)
    → Alike (populate_auto_assist E t p g s) s
unfolding populate_auto_assist
populate_auto_assist-Alike E t p g s =
    let suggested = with_suggestion E (compute_assist_suggestion E t p g) s in
    let white = is_white_side E (E.chess.turn (E.chess.position g)) in
    if-Alike (not p.auto_assist || s.finished) s (if not white then s else suggested) s (alike s) (
      if-Alike (not white) s suggested s (alike s)
        (with_suggestion-Alike E (compute_assist_suggestion E t p g) s))

module _ (E : Environment) (s0 : Cache SessionPayload) where
  pub Follows-Alike :
      (key : String) (W : Wanted) (a b : MoveSummary) (d : Data E.floats)
      → Alike a b
      → Follows E s0 key W b d
      → Follows E s0 key W a d
  Follows-Alike key W a b d h f = record {
    ended = λ e. f.ended (sym h.finished_eq ∙ e);
    goes_on = λ e. rw (h.player_eq, h.engine_eq) (f.goes_on (sym h.finished_eq ∙ e));
  }

  pub Triple-delete_session :
      (id : String)
      → Triple Unsent
          (Quiet E s0)
          (delete_session E id)
          (λ u d. d.sessions ≡ put (session_key E id) none s0)
          (Quiet E s0)
  unfolding delete_session
  Triple-delete_session id =
      Triple-call _ (λ d q. ap (put (session_key E id) none) q.same) (λ l d q. q)
        (λ l d q. absurd (l refl))

  pub Triple-save_session :
      (now : ℕ) (id : String) (p : SessionPayload)
      → Triple Unsent
          (Quiet E s0)
          (save_session E now id p)
          (λ u d. d.sessions ≡ put (session_key E id) (some (record p { updated_at = now })) s0)
          (Quiet E s0)
  unfolding save_session
  Triple-save_session now id p =
      Triple-call _
        (λ d q. ap (put (session_key E id) (some (record p { updated_at = now }))) q.same)
        (λ l d q. q) (λ l d q. absurd (l refl))
