-- ===== src/Service/Manage.antt =====
-- The other calls of the single-player service: StartSession, Status, Assist, Resign, Undo,
-- History, Game, Profile and UpdatePreferredPreset (internal/service/chess/service.go).
use cheese_kakao_talk_bot.Prelude.{
  ℕ, zero, suc, ◌-◌, String, ◌==◌, Bool, true, false, ◌||◌, not, List, [], ◌∷◌, Option, none, some,
  length, ltb, if◌then◌else◌,
}
use cheese_kakao_talk_bot.ChessLib.{white_side}
use cheese_kakao_talk_bot.Presets.Types.{ℤ, pos, negsuc}
use cheese_kakao_talk_bot.Memrepo.{ChessGame, ChessProfile, get_game}
use cheese_kakao_talk_bot.Memrepo.Recent.{get_recent_games}
use cheese_kakao_talk_bot.Service.Types.{
  SessionMeta, SessionIdentity, SessionPayload, SessionState, AssistSuggestion, session_not_found,
  undo_not_available, game_not_found, preset_required,
}
use cheese_kakao_talk_bot.Service.State.{
  Result, ok, err, M, pure, raise, lift, attempt, call, ◌>>=◌, ◌>>◌,
}
use cheese_kakao_talk_bot.Service.Environment.{Environment, Moment}
use cheese_kakao_talk_bot.Service.Labels.{
  normalized, ensure_room_allowed, derive_identity, normalize_hud_player_label,
}
use cheese_kakao_talk_bot.Service.Rating.{new_profile}
use cheese_kakao_talk_bot.Service.Profiles.{
  apply_preset_style, check_preset, cache_profile, fetch_profile, fetch_optional, store_profile,
  to_option,
}
use cheese_kakao_talk_bot.Service.Sessions.{
  load_session, save_session, delete_session, replay_session, state_from_game, apply_player_name,
}
use cheese_kakao_talk_bot.Service.Finish.{no_result, persist_finished_game}
use cheese_kakao_talk_bot.Service.Assist.{compute_assist_suggestion}
use cheese_kakao_talk_bot.Service.Play.{named_state, named_payload}

-- moves[:n], with n at most the length
unfoldable pub first_moves : ℕ → List String → List String
first_moves zero ms = []
first_moves (suc n) [] = []
first_moves (suc n) (m ∷ ms) = m ∷ first_moves n ms

-- The answer of StartSession: a new session, or the one in progress with ErrSessionInProgress.
pub data Started : Type 0 where
  new_session : SessionState → Started
  in_progress : SessionState → Started

abbrev pub preferred : String → String → Option ChessProfile → String
preferred chosen other none = if chosen == "" then other else chosen
preferred chosen other (some p) =
    if chosen == ""
    then (if p.preferred_preset == "" then other else p.preferred_preset)
    else chosen

abbrev pub preset_profile : Option ChessProfile → SessionIdentity → ℕ → ChessProfile
preset_profile none id now = new_profile id now
preset_profile (some p) id now = p

module _ (E : Environment) (t : Moment) (meta : SessionMeta) where
  abbrev id : SessionIdentity
  id = derive_identity E meta

  -- The session of the player, with the default opening style applied to its preset.
  unfoldable pub styled_session : Option SessionPayload → M E.floats SessionPayload
  unfolding apply_preset_style
  styled_session none = raise session_not_found
  styled_session (some p) = do apply_preset_style E E.config.default_opening_style p.preset; pure p

  unfoldable pub found_session : Option SessionPayload → M E.floats SessionPayload
  found_session none = raise session_not_found
  found_session (some p) = pure p

  -- The state with the profile, if it can be read.
  unfoldable pub show : SessionPayload → E.chess.Play → M E.floats SessionState
  unfolding fetch_profile apply_player_name state_from_game
  show p g = do
    r ← attempt (fetch_profile E id true)
    pure (record (named_state E t meta p g) { profile = to_option r })

  abbrev pub assisted : SessionPayload → SessionPayload
  assisted p = record p { auto_assist = true; updated_at = t.now }

  -- A flag that cannot be saved is reported in the log only.
  unfoldable pub keep_assist : Bool → SessionPayload → M E.floats SessionPayload
  unfolding save_session
  keep_assist auto p = if not auto || p.auto_assist then pure p else do
    attempt (save_session E t.now id.session_id (record p { auto_assist = true }))
    pure (assisted p)

  unfoldable pub resume : Bool → SessionPayload → M E.floats Started
  unfolding keep_assist apply_preset_style replay_session show
  resume auto p = do
    apply_preset_style E E.config.default_opening_style p.preset
    q ← keep_assist auto p
    g ← lift (replay_session E q.moves)
    s ← show q g
    pure (in_progress s)

  unfoldable pub new_payload : String → Bool → SessionPayload
  unfolding normalize_hud_player_label derive_identity
  new_payload preset auto = record {
    session_uuid = t.uuid;
    player_hash = id.player_hash;
    room_hash = id.room_hash;
    player_name = normalize_hud_player_label meta.sender;
    preset = preset;
    moves = [];
    started_at = t.now;
    updated_at = t.now;
    auto_assist = auto;
  }

  unfoldable pub begin : String → Bool → Option ChessProfile → M E.floats Started
  unfolding check_preset apply_preset_style save_session new_payload state_from_game
      apply_player_name derive_identity
  begin preset auto known = do
    check_preset E preset
    apply_preset_style E E.config.default_opening_style preset
    save_session E t.now id.session_id (new_payload preset auto)
    pure (
        new_session (record (named_state E t meta (new_payload preset auto) E.chess.new_game) {
          profile = known;
        }))

  unfoldable pub start_loaded : String → Bool → Option SessionPayload → M E.floats Started
  unfolding resume begin fetch_optional normalized
  start_loaded preset auto (some p) = resume auto p
  start_loaded preset auto none = do
    known ← fetch_optional E id false
    begin (preferred (normalized E preset) E.config.default_preset known) auto known

  unfoldable pub start_session : String → Bool → M E.floats Started
  unfolding start_loaded load_session ensure_room_allowed derive_identity
  start_session preset auto = do
    lift (ensure_room_allowed E meta)
    p ← load_session E id.session_id
    start_loaded preset auto p

  unfoldable pub status : M E.floats SessionState
  unfolding styled_session load_session ensure_room_allowed derive_identity replay_session show
  status = do
    lift (ensure_room_allowed E meta)
    o ← load_session E id.session_id
    p ← styled_session o
    g ← lift (replay_session E p.moves)
    show p g

  unfoldable pub assist : M E.floats AssistSuggestion
  unfolding styled_session load_session ensure_room_allowed derive_identity replay_session
      compute_assist_suggestion
  assist = do
    lift (ensure_room_allowed E meta)
    o ← load_session E id.session_id
    p ← styled_session o
    g ← lift (replay_session E p.moves)
    lift (compute_assist_suggestion E t p g)

  -- White is the player.
  unfoldable pub give_up : SessionPayload → E.chess.Play → M E.floats SessionState
  unfolding persist_finished_game delete_session state_from_game apply_player_name derive_identity
  give_up p g = do
    done ← persist_finished_game E t.now id (named_payload E t meta p g) g no_result
    attempt (delete_session E id.session_id)
    pure (record (named_state E t meta p g) {
      profile = done.1;
      move_count = length p.moves;
      rating_delta = done.2;
    })

  unfoldable pub resign : M E.floats SessionState
  unfolding found_session load_session ensure_room_allowed derive_identity replay_session give_up
  resign = do
    lift (ensure_room_allowed E meta)
    o ← load_session E id.session_id
    p ← found_session o
    g ← lift (replay_session E p.moves)
    give_up (record p { updated_at = t.now }) (E.chess.resign g white_side)

  -- The payload without the last two moves.
  unfoldable pub take_back : SessionPayload → SessionPayload
  unfolding first_moves
  take_back p = record p { moves = first_moves (length p.moves - 2) p.moves; updated_at = t.now }

  unfoldable pub undo_to : SessionPayload → M E.floats SessionState
  unfolding replay_session show save_session apply_player_name state_from_game derive_identity
  undo_to p = do
    g ← lift (replay_session E p.moves)
    s ← show p g
    save_session E t.now id.session_id (named_payload E t meta p g)
    pure s

  unfoldable pub undo_found : SessionPayload → M E.floats SessionState
  unfolding take_back undo_to
  undo_found p = if ltb (length p.moves) 2 then raise undo_not_available else undo_to (take_back p)

  unfoldable pub undo : M E.floats SessionState
  unfolding undo_found found_session load_session ensure_room_allowed derive_identity
  undo = do
    lift (ensure_room_allowed E meta)
    o ← load_session E id.session_id
    p ← found_session o
    undo_found p

  -- A limit out of range is the configured one.
  unfoldable pub history_limit : ℤ → ℕ
  history_limit (pos zero) = E.config.history_limit
  history_limit (pos (suc n)) =
      if ltb E.config.history_limit (suc n) then E.config.history_limit else suc n
  history_limit (negsuc n) = E.config.history_limit

  unfoldable pub history : ℤ → M E.floats (List ChessGame)
  unfolding history_limit get_recent_games ensure_room_allowed derive_identity
  history limit = do
    lift (ensure_room_allowed E meta)
    call λ d. (ok (get_recent_games id.player_hash (history_limit limit) d.repo), d)

  abbrev pub or_no_game : Option ChessGame → Result ChessGame
  or_no_game none = err game_not_found
  or_no_game (some g) = ok g

  unfoldable pub game : ℕ → M E.floats ChessGame
  unfolding get_game ensure_room_allowed derive_identity
  game i = do
    lift (ensure_room_allowed E meta)
    o ← call (λ d. (ok (get_game i id.player_hash d.repo), d))
    lift (or_no_game o)

  unfoldable pub profile : M E.floats ChessProfile
  unfolding fetch_profile ensure_room_allowed derive_identity
  profile = do lift (ensure_room_allowed E meta); fetch_profile E id true

  unfoldable pub prefer : String → Option ChessProfile → ChessProfile
  unfolding new_profile derive_identity
  prefer target known = record (preset_profile known id t.now) {
    preferred_preset = target;
    last_preset = target;
    last_played_at = t.now;
    updated_at = t.now;
  }

  unfoldable pub set_preferred : String → Option ChessProfile → M E.floats ChessProfile
  unfolding store_profile cache_profile prefer derive_identity
  set_preferred target known = do
    store_profile E (prefer target known)
    cache_profile E id (prefer target known)
    pure (prefer target known)

  unfoldable pub prefer_valid : String → M E.floats ChessProfile
  unfolding check_preset fetch_optional set_preferred derive_identity
  prefer_valid target = do
    check_preset E target
    known ← fetch_optional E id false
    set_preferred target known

  unfoldable pub update_preferred_preset : String → M E.floats ChessProfile
  unfolding normalized prefer_valid ensure_room_allowed
  update_preferred_preset preset = do
    lift (ensure_room_allowed E meta)
    if normalized E preset == "" then raise preset_required else prefer_valid (normalized E preset)
