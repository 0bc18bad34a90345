-- ===== src/Service/Play.antt =====
-- One move of the player and the engine's reply (Play of internal/service/chess/service.go).
use cheese_kakao_talk_bot.Prelude.{String, ◌==◌, [], ◌∷◌, ◌++◌, Option, none, some, if◌then◌else◌}
use cheese_kakao_talk_bot.Presets.Types.{pos}
use cheese_kakao_talk_bot.Text.{trim_space, to_lower}
use cheese_kakao_talk_bot.Service.Types.{
  SessionMeta, SessionIdentity, SessionPayload, SessionState, EvaluateResult, MoveSummary, Error,
  invalid_move, session_not_found, already_finished, bad_engine_move,
}
use cheese_kakao_talk_bot.Service.State.{Result, ok, err, M, pure, raise, lift, ◌>>=◌, ◌>>◌}
use cheese_kakao_talk_bot.Service.Environment.{Environment, Moment}
use cheese_kakao_talk_bot.Service.Labels.{normalized, ensure_room_allowed, derive_identity}
use cheese_kakao_talk_bot.Service.Profiles.{apply_preset_style}
use cheese_kakao_talk_bot.Service.Sessions.{
  load_session, replay_session, is_over, state_from_game, apply_player_name,
}
use cheese_kakao_talk_bot.Service.Finish.{no_result, finish_game, finish_if_needed}
use cheese_kakao_talk_bot.Service.Assist.{map_engine_error, populate_auto_assist}

abbrev pub or_error : {A : Type 0} → Error → Option A → Result A
or_error e none = err e
or_error e (some a) = ok a

abbrev pub or_else : {A : Type 0} → Option A → Option A → Option A
or_else none other = other
or_else (some a) other = some a

module _ (E : Environment) where
  -- The text is read in standard notation first.
  unfoldable pub decode_move : E.chess.Position → String → Result E.chess.Move
  unfolding to_lower
  decode_move p text =
      or_error invalid_move
        (or_else (E.chess.decode_san p text) (E.chess.decode_uci p (to_lower E.beyond text)))

  unfoldable pub uci_text : E.chess.Position → E.chess.Move → String
  unfolding to_lower
  uci_text p m = to_lower E.beyond (E.chess.encode_uci p m)

module _ (E : Environment) (t : Moment) (meta : SessionMeta) where
  abbrev id : SessionIdentity
  id = derive_identity E meta

  -- The payload with one more move.
  unfoldable pub add_move : String → SessionPayload → SessionPayload
  add_move m p = record p { moves = p.moves ++ (m ∷ []); updated_at = t.now }

  abbrev pub named_state : SessionPayload → E.chess.Play → SessionState
  named_state p g = (apply_player_name (state_from_game E p g) p meta).0

  abbrev pub named_payload : SessionPayload → E.chess.Play → SessionPayload
  named_payload p g = (apply_player_name (state_from_game E p g) p meta).1

  -- What Play answers, before the end of the game is dealt with.
  unfoldable pub summary_of :
      SessionPayload → E.chess.Play → String × String → String × String → MoveSummary
  unfolding state_from_game apply_player_name
  summary_of p g player engine = record {
    state = named_state p g;
    player_san = player.0;
    player_uci = player.1;
    engine_san = engine.0;
    engine_uci = engine.1;
    finished = is_over (E.chess.outcome g);
    game_id = 0;
    profile = none;
    rating_delta = pos 0;
    assist = none;
  }

  unfoldable pub settle :
      SessionPayload
      → E.chess.Play
      → String × String
      → String × String
      → EvaluateResult
      → M E.floats MoveSummary
  unfolding summary_of apply_player_name state_from_game finish_if_needed populate_auto_assist
  settle p g player engine r = do
    s ← finish_if_needed E t.now id (named_payload p g) g r (summary_of p g player engine)
    pure (populate_auto_assist E t (named_payload p g) g s)

  unfoldable pub engine_move :
      SessionPayload → E.chess.Play → String × String → EvaluateResult → M E.floats MoveSummary
  unfolding settle add_move normalized uci_text
  engine_move p g player r = do
    m ←
        lift (
          or_error bad_engine_move
            (E.chess.decode_uci (E.chess.position g) (normalized E r.chosen)))
    g' ← lift (or_error bad_engine_move (E.chess.move g m))
    settle (add_move (uci_text E (E.chess.position g) m) p) g' player
        (E.chess.encode_san (E.chess.position g) m, uci_text E (E.chess.position g) m) r

  -- The game goes on after the player's move.
  unfoldable pub reply : SessionPayload → E.chess.Play → String × String → M E.floats MoveSummary
  unfolding engine_move settle map_engine_error normalized
  reply p g player = do
    r ← lift (map_engine_error (t.evaluate p.preset p.moves))
    if normalized E r.chosen == "" then settle p g player ("", "") r else engine_move p g player r

  unfoldable pub moved : SessionPayload → E.chess.Play → String × String → M E.floats MoveSummary
  unfolding reply finish_game summary_of apply_player_name state_from_game
  moved p g player =
      if is_over (E.chess.outcome g)
      then finish_game E t.now id (named_payload p g) g no_result (summary_of p g player ("", ""))
      else reply p g player

  unfoldable pub play_move : String → SessionPayload → E.chess.Play → M E.floats MoveSummary
  unfolding moved decode_move add_move uci_text
  play_move text p g = do
    m ← lift (decode_move E (E.chess.position g) text)
    g' ← lift (or_error invalid_move (E.chess.move g m))
    moved (add_move (uci_text E (E.chess.position g) m) p) g'
        (E.chess.encode_san (E.chess.position g) m, uci_text E (E.chess.position g) m)

  unfoldable pub play_loaded : String → Option SessionPayload → M E.floats MoveSummary
  unfolding play_move apply_preset_style replay_session
  play_loaded text none = raise session_not_found
  play_loaded text (some p) = do
    apply_preset_style E E.config.default_opening_style p.preset
    g ← lift (replay_session E p.moves)
    if is_over (E.chess.outcome g) then raise already_finished else play_move text p g

  unfoldable pub play : String → M E.floats MoveSummary
  unfolding play_loaded load_session derive_identity ensure_room_allowed trim_space
  play input = do
    lift (ensure_room_allowed E meta)
    if trim_space input == ""
        then raise invalid_move
        else do p ← load_session E id.session_id; play_loaded (trim_space input) p
