-- ===== src/Service/Sane.antt =====
-- What always holds of the service's data, and that its single steps keep it (fetchProfile,
-- cacheProfile, loadSession, saveSession and others of internal/service/chess/service.go).
use cheese_kakao_talk_bot.Prelude.{
  ℕ, String, ◌==◌, ◌≡◌, subst, sym, ◌∙◌, ap, List, [], ◌∷◌, Option, none, some, inl, inr,
  Bool-cases, All, if◌then◌else◌,
}
use cheese_kakao_talk_bot.Action.Commands.{OptAll}
use cheese_kakao_talk_bot.Presets.Registry.{Edited, refused, edited, set_preset_opening_style}
use cheese_kakao_talk_bot.Presets.Safe.{
  IsValid, edits, edits-IsValid, after, set_style as style_edit,
}
use cheese_kakao_talk_bot.Memrepo.{ChessProfile, Memrepo}
use cheese_kakao_talk_bot.Service.Types.{SessionPayload}
use cheese_kakao_talk_bot.Service.State.{Cache, put, Data, M}
use cheese_kakao_talk_bot.Service.Environment.{Environment}
use cheese_kakao_talk_bot.Service.Labels.{session_key}
use cheese_kakao_talk_bot.Service.Profiles.{use_edited, check_preset, to_result}
use cheese_kakao_talk_bot.Service.Sessions.{load_session, save_session, delete_session, with_preset}
use cheese_kakao_talk_bot.Service.Triples.{Fault}
use cheese_kakao_talk_bot.Service.Keeping.{
  Keeps, OfOk, Any, OfOk-Any, Keeps-pure, Keeps-local, Keeps-call, Keeps-then,
}
use cheese_kakao_talk_bot.Service.Counted.{IsCounted, apply_game_result-IsCounted}
use cheese_kakao_talk_bot.Service.Steps.{Allows, found_in}
use cheese_kakao_talk_bot.Service.Replays.{Leads}

module _ (E : Environment) where
  -- The moves can be played from the start.
  abbrev pub Playable : List String → Type 0
  Playable ms = (g : E.chess.Play) × Leads E E.chess.new_game ms g

  pub record Sane (d : Data E.floats) : Type 0 where
    pub sessions_play : (k : String) (p : SessionPayload) → d.sessions k ≡ some p → Playable p.moves
    pub cached_count : (k : String) (p : ChessProfile) → d.profiles k ≡ some p → IsCounted p
    pub stored_count : All (λ kp. IsCounted kp.1) d.repo.profiles
    pub presets_valid : IsValid E.beyond E.floats d.registry

  abbrev pub Safe : {A : Type 0} (m : M E.floats A) (W : A → Type 0) → Type 0
  Safe m W = Keeps Fault Sane m W

  entry : {V : Type 0} (W : V → Type 0) (o : Option V) (v : V) → OptAll W o → o ≡ some v → W v
  entry W none v new e = absurd (cc)
  entry W (some x) v new e = let same : x ≡ v = cc in subst W same new

  put-holds :
      {V : Type 0} (W : V → Type 0) (k : String) (o : Option V) (c : Cache V)
      → ((j : String) (v : V) → c j ≡ some v → W v)
      → OptAll W o
      → (j : String) (v : V) → put k o c j ≡ some v
      → W v
  put-holds W k o c h new j v e = elim (Bool-cases (k == j)) [
    | inl b ↦ entry W o v new (sym (ap (λ t. if t then o else c j) b) ∙ e)
    | inr b ↦ h j v (sym (ap (λ t. if t then o else c j) b) ∙ e)
  ]

  filtered :
      (o : Option SessionPayload)
      → OptAll (λ p. Playable p.moves) o
      → OptAll (λ p. Playable p.moves) (with_preset o)
  filtered none h = tt
  filtered (some p) h = elim (Bool-cases (p.preset == "")) [ inl e ↦ rw e tt | inr e ↦ rw e h ]

  pub Safe-load_session : (id : String) → Safe (load_session E id) (OptAll (λ p. Playable p.moves))
  unfolding load_session
  Safe-load_session id =
      Keeps-then _ _
        (Keeps-call {W = OptAll (λ p. Playable p.moves)} _
          (λ d s. (s, found_in _ (d.sessions (session_key E id)) (s.sessions_play _))))
        (λ o h. Keeps-pure _ (filtered o h))

  with_sessions :
      (d : Data E.floats) (k : String) (o : Option SessionPayload)
      → OptAll (λ p. Playable p.moves) o
      → Sane d
      → Sane (record d { sessions = put k o d.sessions })
  with_sessions d k o h s = record {
    sessions_play = put-holds _ k o d.sessions s.sessions_play h;
    cached_count = s.cached_count;
    stored_count = s.stored_count;
    presets_valid = s.presets_valid;
  }

  pub Safe-save_session :
      (now : ℕ) (id : String) (p : SessionPayload)
      → Playable p.moves
      → Safe (save_session E now id p) Any
  unfolding save_session
  Safe-save_session now id p h =
      Keeps-call _
        (λ d s. (with_sessions d (session_key E id) (some (record p { updated_at = now })) h s, tt))

  pub Safe-delete_session : (id : String) → Safe (delete_session E id) Any
  unfolding delete_session
  Safe-delete_session id = Keeps-call _ (λ d s. (with_sessions d (session_key E id) none tt s, tt))

  with_cached :
      (k : String) (p : ChessProfile)
      → IsCounted p
      → (d : Data E.floats) → Sane d
      → Sane (record d { profiles = put k (some p) d.profiles })
  with_cached k p c d s = record {
    sessions_play = s.sessions_play;
    cached_count = put-holds _ k (some p) d.profiles s.cached_count c;
    stored_count = s.stored_count;
    presets_valid = s.presets_valid;
  }

  pub with_repo :
      (d : Data E.floats) (r : Memrepo)
      → All (λ kp. IsCounted kp.1) r.profiles
      → Sane d
      → Sane (record d { repo = r })
  with_repo d r h s = record {
    sessions_play = s.sessions_play;
    cached_count = s.cached_count;
    stored_count = h;
    presets_valid = s.presets_valid;
  }

  with_registry :
      (d : Data E.floats) (e : Edited E.floats)
      → IsValid E.beyond E.floats (after E.beyond E.floats d.registry e)
      → Sane d
      → Sane (use_edited e d).1 × OfOk Any (use_edited e d).0
  with_registry d (refused e) h s = (s, tt)
  with_registry d (edited r) h s = (
    record {
      sessions_play = s.sessions_play;
      cached_count = s.cached_count;
      stored_count = s.stored_count;
      presets_valid = h;
    },
    tt,
  )

  pub Safe-check_preset : (name : String) → Safe (check_preset E name) Any
  unfolding check_preset
  Safe-check_preset name = Keeps-local _ (λ d s. (s, OfOk-Any (to_result E _)))

  restyled :
      (d : Data E.floats) (name style : String)
      → Sane d
      → Sane
          (use_edited
            (set_preset_opening_style E.floats E.beyond E.styles d.registry name style)
            d).1
  unfolding edits
  restyled d name style s =
      (with_registry d (set_preset_opening_style E.floats E.beyond E.styles d.registry name style)
        (edits-IsValid E.beyond E.floats (style_edit E.styles name style ∷ []) d.registry
          s.presets_valid)
        s).0

  pub allows_Sane : Allows E Sane IsCounted
  allows_Sane = record {
    reads = record {
      cached = λ d s. s.cached_count;
      stored = λ d s. s.stored_count;
      put_cached = λ d k p c s. with_cached k p c d s;
    };
    put_repo = with_repo;
    restyle = restyled;
    counted = apply_game_result-IsCounted E;
  }
