-- ===== src/Service/Managing.antt =====
-- The other calls of the single-player service (internal/service/chess/service.go) keep its data
-- sane: StartSession, Status, Assist, Resign, Undo, Profile and UpdatePreferredPreset.
use cheese_kakao_talk_bot.Prelude.{
  ℕ, ◌-◌, String, ◌==◌, ◌||◌, not, refl, [], length, ltb, Option, none, some, Bool, true, false,
}
use cheese_kakao_talk_bot.Action.Commands.{OptAll}
use cheese_kakao_talk_bot.ChessLib.{white_side}
use cheese_kakao_talk_bot.Presets.Types.{ℤ}
use cheese_kakao_talk_bot.Memrepo.{ChessProfile}
use cheese_kakao_talk_bot.Service.Types.{
  SessionMeta, SessionIdentity, SessionPayload, session_not_found, undo_not_available,
  preset_required,
}
use cheese_kakao_talk_bot.Service.State.{pure, raise, lift, attempt, ◌>>◌}
use cheese_kakao_talk_bot.Service.Environment.{Environment, Moment}
use cheese_kakao_talk_bot.Service.Labels.{normalized, derive_identity, ensure_room_allowed}
use cheese_kakao_talk_bot.Service.Sessions.{
  save_session, replay_session, apply_player_name, replay_from,
}
use cheese_kakao_talk_bot.Service.Finish.{no_result}
use cheese_kakao_talk_bot.Service.Assist.{compute_assist_suggestion}
use cheese_kakao_talk_bot.Service.Play.{named_payload}
use cheese_kakao_talk_bot.Service.Manage.{
  styled_session, found_session, show, assisted, keep_assist, resume, new_payload, begin,
  start_loaded, start_session, status, assist, give_up, resign, take_back, undo_to, undo_found,
  set_preferred, prefer_valid, undo, history, game, profile, update_preferred_preset, or_no_game,
}
use cheese_kakao_talk_bot.Service.Keeping.{
  Any, OfOk-Any, Keeps-pure, Keeps-raise, Keeps-lift, Keeps-if, Keeps-call, Keeps-attempt,
  Keeps-then,
}
use cheese_kakao_talk_bot.Service.Counted.{IsCounted, prefer-IsCounted}
use cheese_kakao_talk_bot.Service.Replays.{Leads-prefix}
use cheese_kakao_talk_bot.Service.Triples.{Fault}
use cheese_kakao_talk_bot.Service.Steps.{
  Keeps-apply_preset_style, Keeps-cache_profile, Keeps-fetch_profile, Keeps-fetch_optional,
  Keeps-store_profile, Keeps-persist_finished_game,
}
use cheese_kakao_talk_bot.Service.Sane.{
  allows_Sane, Playable, Safe, Safe-load_session, Safe-save_session, Safe-delete_session,
  Safe-check_preset,
}

module _ (E : Environment) (t : Moment) (meta : SessionMeta) where
  abbrev who : SessionIdentity
  who = derive_identity E meta

  abbrev Plays : SessionPayload → Type 0
  Plays p = Playable E p.moves

  Safe-allowed : Safe E (lift (ensure_room_allowed E meta)) Any
  Safe-allowed = Keeps-lift _ (OfOk-Any (ensure_room_allowed E meta))

  Safe-styled_session :
      (o : Option SessionPayload) → OptAll Plays o → Safe E (styled_session E t meta o) Plays
  unfolding styled_session
  Safe-styled_session none h = Keeps-raise session_not_found
  Safe-styled_session (some p) h =
      Keeps-then {W = Any} _ _
        (Keeps-apply_preset_style E Fault (allows_Sane E) E.config.default_opening_style p.preset)
        (λ u v. Keeps-pure p h)

  Safe-found_session :
      (o : Option SessionPayload) → OptAll Plays o → Safe E (found_session E t meta o) Plays
  unfolding found_session
  Safe-found_session none h = Keeps-raise session_not_found
  Safe-found_session (some p) h = Keeps-pure p h

  Safe-show : (p : SessionPayload) (g : E.chess.Play) → Safe E (show E t meta p g) Any
  unfolding show
  Safe-show p g =
      Keeps-then _ _ (Keeps-attempt _ (Keeps-fetch_profile E Fault (allows_Sane E).reads who true))
        (λ r h. Keeps-pure _ tt)

  Safe-keep_assist :
      (auto : Bool) (p : SessionPayload) → Plays p → Safe E (keep_assist E t meta auto p) Plays
  unfolding keep_assist
  Safe-keep_assist auto p h =
      let q : SessionPayload = record p { auto_assist = true } in
      let save = attempt (save_session E t.now who.session_id q) >> pure (assisted E t meta p) in
      Keeps-if (not auto || p.auto_assist) (pure p) save (λ e. Keeps-pure p h)
        λ e.
          Keeps-then _ _ (Keeps-attempt _ (Safe-save_session E t.now who.session_id q h))
            (λ u v. Keeps-pure _ h)

  Safe-resume : (auto : Bool) (p : SessionPayload) → Plays p → Safe E (resume E t meta auto p) Any
  unfolding resume
  Safe-resume auto p h =
      Keeps-then {W = Any} _ _
        (Keeps-apply_preset_style E Fault (allows_Sane E) E.config.default_opening_style p.preset)
        λ u v. Keeps-then _ _ (Safe-keep_assist auto p h) λ q hq.
          Keeps-then {W = Any} _ _ (Keeps-lift _ (OfOk-Any (replay_session E q.moves)))
            λ g hg. Keeps-then _ _ (Safe-show q g) (λ s hs. Keeps-pure _ tt)

  nothing_played : Playable E []
  unfolding replay_from
  nothing_played = (E.chess.new_game, record { replayed = refl })

  Safe-begin :
      (preset : String) (auto : Bool) (known : Option ChessProfile)
      → Safe E (begin E t meta preset auto known) Any
  unfolding begin new_payload
  Safe-begin preset auto known = Keeps-then {W = Any} _ _ (Safe-check_preset E preset) λ u v.
      Keeps-then {W = Any} _ _
        (Keeps-apply_preset_style E Fault (allows_Sane E) E.config.default_opening_style preset)
        λ u v.
          Keeps-then {W = Any} _ _
            (Safe-save_session E t.now who.session_id (new_payload E t meta preset auto)
              nothing_played)
            (λ u v. Keeps-pure _ tt)

  Safe-start_loaded :
      (preset : String) (auto : Bool) (o : Option SessionPayload)
      → OptAll Plays o
      → Safe E (start_loaded E t meta preset auto o) Any
  unfolding start_loaded
  Safe-start_loaded preset auto (some p) h = Safe-resume auto p h
  Safe-start_loaded preset auto none h =
      Keeps-then _ _ (Keeps-fetch_optional E Fault (allows_Sane E).reads who false)
        (λ k hk. Safe-begin _ auto k)

  pub Safe-start_session :
      (preset : String) (auto : Bool) → Safe E (start_session E t meta preset auto) Any
  unfolding start_session
  Safe-start_session preset auto =
      Keeps-then _ _ Safe-allowed
        λ u v. Keeps-then _ _ (Safe-load_session E who.session_id) (Safe-start_loaded preset auto)

  pub Safe-status : Safe E (status E t meta) Any
  unfolding status
  Safe-status = Keeps-then _ _ Safe-allowed λ u v.
      Keeps-then _ _ (Safe-load_session E who.session_id) λ o ho.
        Keeps-then _ _ (Safe-styled_session o ho) λ p h.
          Keeps-then {W = Any} _ _ (Keeps-lift _ (OfOk-Any (replay_session E p.moves)))
            (λ g hg. Safe-show p g)

  pub Safe-assist : Safe E (assist E t meta) Any
  unfolding assist
  Safe-assist = Keeps-then _ _ Safe-allowed λ u v.
      Keeps-then _ _ (Safe-load_session E who.session_id) λ o ho.
        Keeps-then _ _ (Safe-styled_session o ho) λ p h.
          Keeps-then {W = Any} _ _ (Keeps-lift _ (OfOk-Any (replay_session E p.moves)))
            (λ g hg. Keeps-lift _ (OfOk-Any (compute_assist_suggestion E t p g)))

  Safe-give_up : (p : SessionPayload) (g : E.chess.Play) → Safe E (give_up E t meta p g) Any
  unfolding give_up
  Safe-give_up p g =
      Keeps-then _ _
        (Keeps-persist_finished_game E Fault (allows_Sane E) t.now who (named_payload E t meta p g)
          g no_result)
        λ done h.
          Keeps-then _ _ (Keeps-attempt _ (Safe-delete_session E who.session_id))
            (λ u v. Keeps-pure _ tt)

  abbrev later : SessionPayload → SessionPayload
  later p = record p { updated_at = t.now }

  pub Safe-resign : Safe E (resign E t meta) Any
  unfolding resign
  Safe-resign = Keeps-then _ _ Safe-allowed λ u v.
      Keeps-then _ _ (Safe-load_session E who.session_id) λ o ho.
        Keeps-then _ _ (Safe-found_session o ho) λ p h.
          Keeps-then {W = Any} _ _ (Keeps-lift _ (OfOk-Any (replay_session E p.moves)))
            (λ g hg. Safe-give_up (later p) (E.chess.resign g white_side))

  take_back-Playable : (p : SessionPayload) → Plays p → Plays (take_back E t meta p)
  unfolding take_back
  take_back-Playable p (g, l) = Leads-prefix E (length p.moves - 2) p.moves E.chess.new_game g l

  Safe-undo_to : (p : SessionPayload) → Plays p → Safe E (undo_to E t meta p) Any
  unfolding undo_to apply_player_name
  Safe-undo_to p h =
      Keeps-then {W = Any} _ _ (Keeps-lift _ (OfOk-Any (replay_session E p.moves))) λ g hg.
        Keeps-then _ _ (Safe-show p g) λ s hs.
          Keeps-then {W = Any} _ _
            (Safe-save_session E t.now who.session_id (named_payload E t meta p g) h)
            (λ u v. Keeps-pure s tt)

  Safe-undo_found : (p : SessionPayload) → Plays p → Safe E (undo_found E t meta p) Any
  unfolding undo_found
  Safe-undo_found p h =
      Keeps-if (ltb (length p.moves) 2) (raise undo_not_available)
        (undo_to E t meta (take_back E t meta p)) (λ e. Keeps-raise undo_not_available)
        (λ e. Safe-undo_to (take_back E t meta p) (take_back-Playable p h))

  pub Safe-undo : Safe E (undo E t meta) Any
  unfolding undo
  Safe-undo = Keeps-then _ _ Safe-allowed λ u v.
      Keeps-then _ _ (Safe-load_session E who.session_id)
        λ o ho. Keeps-then _ _ (Safe-found_session o ho) Safe-undo_found

  pub Safe-history : (limit : ℤ) → Safe E (history E t meta limit) Any
  unfolding history
  Safe-history limit = Keeps-then _ _ Safe-allowed (λ u v. Keeps-call {W = Any} _ (λ d s. (s, tt)))

  pub Safe-game : (i : ℕ) → Safe E (game E t meta i) Any
  unfolding game
  Safe-game i = Keeps-then _ _ Safe-allowed λ u v.
      Keeps-then {W = Any} _ _ (Keeps-call _ (λ d s. (s, tt)))
        (λ o ho. Keeps-lift _ (OfOk-Any (or_no_game E t meta o)))

  pub Safe-profile : Safe E (profile E t meta) IsCounted
  unfolding profile
  Safe-profile =
      Keeps-then _ _ Safe-allowed
        (λ u v. Keeps-fetch_profile E Fault (allows_Sane E).reads who true)

  Safe-set_preferred :
      (target : String) (known : Option ChessProfile)
      → OptAll IsCounted known
      → Safe E (set_preferred E t meta target known) IsCounted
  unfolding set_preferred
  Safe-set_preferred target known h =
      let c = prefer-IsCounted E t meta target known h in
      Keeps-then {W = Any} _ _ (Keeps-store_profile E Fault (allows_Sane E) _ c) λ u v.
        Keeps-then {W = Any} _ _ (Keeps-cache_profile E Fault (allows_Sane E).reads who _ c)
          (λ u v. Keeps-pure _ c)

  Safe-prefer_valid : (target : String) → Safe E (prefer_valid E t meta target) IsCounted
  unfolding prefer_valid
  Safe-prefer_valid target = Keeps-then {W = Any} _ _ (Safe-check_preset E target) λ u v.
      Keeps-then _ _ (Keeps-fetch_optional E Fault (allows_Sane E).reads who false)
        (Safe-set_preferred target)

  pub Safe-update_preferred_preset :
      (preset : String) → Safe E (update_preferred_preset E t meta preset) IsCounted
  unfolding update_preferred_preset
  Safe-update_preferred_preset preset = Keeps-then _ _ Safe-allowed λ u v.
      Keeps-if (normalized E preset == "") (raise preset_required)
        (prefer_valid E t meta (normalized E preset)) (λ e. Keeps-raise preset_required)
        (λ e. Safe-prefer_valid (normalized E preset))
