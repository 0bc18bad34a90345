-- ===== src/Service/Finish.antt =====
-- The end of a game and the saving of one that goes on (persistFinishedGame, finishIfNeeded of
-- internal/service/chess/service.go).
use cheese_kakao_talk_bot.Prelude.{
  ℕ, ◌==◌, Bool, true, [], false, Option, none, some, if◌then◌else◌,
}
use cheese_kakao_talk_bot.Integers.{from_difference}
use cheese_kakao_talk_bot.Presets.Types.{ℤ, pos}
use cheese_kakao_talk_bot.Text.{to_lower}
use cheese_kakao_talk_bot.Memrepo.{
  ChessGame, ChessProfile, Memrepo, Inserted, inserted, duplicate, insert_game, get_game_by_session,
}
use cheese_kakao_talk_bot.Service.Types.{
  SessionIdentity, SessionPayload, EvaluateResult, MoveSummary, duplicate_game,
}
use cheese_kakao_talk_bot.Service.State.{
  Result, ok, err, Data, M, pure, raise, attempt, call, ◌>>=◌, ◌>>◌,
}
use cheese_kakao_talk_bot.Service.Environment.{Environment}
use cheese_kakao_talk_bot.Service.Rating.{result_from_outcome, apply_game_result}
use cheese_kakao_talk_bot.Service.Profiles.{cache_profile, fetch_optional, store_profile}
use cheese_kakao_talk_bot.Service.Sessions.{save_session, delete_session, state_from_game}

abbrev pub bool_to_int : Bool → ℤ
bool_to_int true = pos 1
bool_to_int false = pos 0

-- corechess.EvaluateResult{}
abbrev pub no_result : EvaluateResult
no_result = record {
  preset_name = "";
  chosen = "";
  best_move = "";
  candidates = [];
  blunder = false;
  duration = pos 0;
}

-- The id that a finished game has, the profile after it, and the change of the rating.
abbrev pub Persisted : Type 0
Persisted = ℕ × Option ChessProfile × ℤ

module _ (E : Environment) (now : ℕ) (id : SessionIdentity) (p : SessionPayload)
    (g : E.chess.Play) where
  unfoldable pub game_record : EvaluateResult → ChessGame
  unfolding result_from_outcome state_from_game to_lower
  game_record r = record {
    id = 0;
    session_uuid = p.session_uuid;
    player_hash = id.player_hash;
    room_hash = id.room_hash;
    preset = p.preset;
    engine_preset = if r.preset_name == "" then p.preset else r.preset_name;
    result = result_from_outcome (E.chess.outcome g);
    result_method = to_lower E.beyond (E.chess.method g);
    moves_uci = p.moves;
    moves_san = (state_from_game E p g).moves_san;
    pgn = E.chess.pgn g;
    started_at = p.started_at;
    ended_at = now;
    duration = from_difference now p.started_at;
    blunders = bool_to_int r.blunder;
    engine_latency = r.duration;
  }

  abbrev pub to_repo : Data E.floats → Inserted × Memrepo → Result Inserted × Data E.floats
  to_repo d (i, r) = (ok i, record d { repo = r })

  unfoldable pub insert_record : ChessGame → M E.floats Inserted
  unfolding insert_game
  insert_record x = call λ d. to_repo d (insert_game (some x) d.repo)

  -- The game was recorded before: its profile was counted then, or never.
  unfoldable pub known_before : Option ChessGame → M E.floats Persisted
  unfolding fetch_optional
  known_before none = raise duplicate_game
  known_before (some x) = do known ← fetch_optional E id true; pure (x.id, known, pos 0)

  -- An error of GetGameBySession is reported as ErrDuplicateGame.
  abbrev pub recorded_game : Result (Option ChessGame) → Option ChessGame
  recorded_game (ok x) = x
  recorded_game (err e) = none

  unfoldable pub look_up_record : M E.floats (Option ChessGame)
  unfolding get_game_by_session
  look_up_record = call λ d. (ok (get_game_by_session p.session_uuid id.player_hash d.repo), d)

  unfoldable pub count_game : ℕ → M E.floats Persisted
  unfolding fetch_optional apply_game_result store_profile cache_profile
  count_game i = do
    known ← fetch_optional E id false
    let counted = apply_game_result E known id p.preset (E.chess.outcome g) now
    store_profile E counted.0
    cache_profile E id counted.0
    pure (i, some counted.0, counted.1)

  unfoldable pub after_insert : Inserted → M E.floats Persisted
  unfolding count_game known_before look_up_record
  after_insert (inserted i) = count_game i
  after_insert duplicate = do r ← attempt look_up_record; known_before (recorded_game r)

  unfoldable pub persist_finished_game : EvaluateResult → M E.floats Persisted
  unfolding insert_record after_insert game_record
  persist_finished_game r = do i ← insert_record (game_record r); after_insert i

  abbrev pub with_persisted : Persisted → MoveSummary → MoveSummary
  with_persisted (i, prof, delta) s = record s {
    state = record s.state { profile = prof; rating_delta = delta };
    game_id = i;
    profile = prof;
    rating_delta = delta;
  }

  -- The summary is written on; a session that cannot be deleted is reported in the log only.
  unfoldable pub finish_game : EvaluateResult → MoveSummary → M E.floats MoveSummary
  unfolding persist_finished_game delete_session
  finish_game r s = do
    done ← persist_finished_game r
    attempt (delete_session E id.session_id)
    pure (with_persisted done s)

  unfoldable pub finish_if_needed : EvaluateResult → MoveSummary → M E.floats MoveSummary
  unfolding finish_game save_session
  finish_if_needed r s =
      if s.finished then finish_game r s else do save_session E now id.session_id p; pure s
