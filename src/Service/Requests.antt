-- ===== src/Service/Requests.antt =====
-- The calls of the single-player service, one after another, each of which may meet faults of the
-- cache and the database (internal/service/chess/service.go).
use cheese_kakao_talk_bot.Prelude.{ℕ, String, Bool, List, [], ◌∷◌}
use cheese_kakao_talk_bot.Presets.Types.{ℤ}
use cheese_kakao_talk_bot.Service.Types.{SessionMeta}
use cheese_kakao_talk_bot.Service.State.{Result, ok, err, Data, Store, M}
use cheese_kakao_talk_bot.Service.Environment.{Environment, Moment}
use cheese_kakao_talk_bot.Service.Play.{play}
use cheese_kakao_talk_bot.Service.Manage.{
  start_session, status, assist, resign, undo, history, game, profile, update_preferred_preset,
}
use cheese_kakao_talk_bot.Service.Triples.{all_faults, Post, Both}
use cheese_kakao_talk_bot.Service.Replays.{RoundTrips}
use cheese_kakao_talk_bot.Service.Sane.{Sane, Safe}
use cheese_kakao_talk_bot.Service.Playing.{Safe-play}
use cheese_kakao_talk_bot.Service.Managing.{
  Safe-start_session, Safe-status, Safe-assist, Safe-resign, Safe-undo, Safe-history, Safe-game,
  Safe-profile, Safe-update_preferred_preset,
}

-- What is asked of the service.
pub data Request : Type 0 where
  to_start : String → Bool → Request
  to_see to_get_help to_resign to_undo to_see_profile : Request
  to_play : String → Request
  to_see_history : ℤ → Request
  to_see_game : ℕ → Request
  to_prefer : String → Request

pub record Asked : Type 0 where
  pub request : Request
  pub moment : Moment
  pub by : SessionMeta

module _ (E : Environment) where
  -- The data after one call.
  abbrev ask : Moment → SessionMeta → Request → Store E.floats → Store E.floats
  ask t meta (to_start preset auto) w = (start_session E t meta preset auto w).1
  ask t meta to_see w = (status E t meta w).1
  ask t meta to_get_help w = (assist E t meta w).1
  ask t meta to_resign w = (resign E t meta w).1
  ask t meta to_undo w = (undo E t meta w).1
  ask t meta to_see_profile w = (profile E t meta w).1
  ask t meta (to_play input) w = (play E t meta input w).1
  ask t meta (to_see_history limit) w = (history E t meta limit w).1
  ask t meta (to_see_game i) w = (game E t meta i w).1
  ask t meta (to_prefer preset) w = (update_preferred_preset E t meta preset w).1

  unfoldable pub serve : List Asked → Store E.floats → Store E.floats
  unfolding start_session status assist resign undo profile play history game
      update_preferred_preset
  serve [] w = w
  serve (a ∷ rs) w = serve rs (ask a.moment a.by a.request w)

  ok_or_not :
      {A : Type 0} (r : Result A) (d : Data E.floats) (W : A → Type 0)
      → Post (Both W (Sane E)) (Sane E) r d
      → Sane E d
  ok_or_not (ok a) d W b = b.rest
  ok_or_not (err e) d W s = s

  still_Sane :
      {A : Type 0} {W : A → Type 0} (m : M E.floats A)
      → Safe E m W
      → (w : Store E.floats) → Sane E w.content
      → Sane E (m w).1.content
  still_Sane {W = W} m k w s = ok_or_not (m w).0 (m w).1.content W (k.at w (all_faults w.fates) s).1

  module _ (trips : RoundTrips E) where
    ask-Sane :
        (t : Moment) (meta : SessionMeta) (r : Request) (w : Store E.floats)
        → Sane E w.content
        → Sane E (ask t meta r w).content
    ask-Sane t meta (to_start preset auto) w s =
        still_Sane (start_session E t meta preset auto) (Safe-start_session E t meta preset auto) w
          s
    ask-Sane t meta to_see w s = still_Sane (status E t meta) (Safe-status E t meta) w s
    ask-Sane t meta to_get_help w s = still_Sane (assist E t meta) (Safe-assist E t meta) w s
    ask-Sane t meta to_resign w s = still_Sane (resign E t meta) (Safe-resign E t meta) w s
    ask-Sane t meta to_undo w s = still_Sane (undo E t meta) (Safe-undo E t meta) w s
    ask-Sane t meta to_see_profile w s = still_Sane (profile E t meta) (Safe-profile E t meta) w s
    ask-Sane t meta (to_play input) w s =
        still_Sane (play E t meta input) (Safe-play E trips t meta input) w s
    ask-Sane t meta (to_see_history limit) w s =
        still_Sane (history E t meta limit) (Safe-history E t meta limit) w s
    ask-Sane t meta (to_see_game i) w s = still_Sane (game E t meta i) (Safe-game E t meta i) w s
    ask-Sane t meta (to_prefer preset) w s =
        still_Sane (update_preferred_preset E t meta preset)
          (Safe-update_preferred_preset E t meta preset) w s

    -- Whatever calls are made, and whatever faults of the cache and the database happen: if every
    -- stored session can be replayed, the counters of the profiles agree (the games are the wins,
    -- losses and draws, and a streak is no longer than the games of its kind), and the presets are
    -- valid, then so it stays, provided that the UCI text of a move that was read is read back.
    pub serve-Sane :
        (rs : List Asked) (w : Store E.floats) → Sane E w.content → Sane E (serve rs w).content
    unfolding serve
    serve-Sane [] w s = s
    serve-Sane (a ∷ rs) w s =
        serve-Sane rs (ask a.moment a.by a.request w) (ask-Sane a.moment a.by a.request w s)
