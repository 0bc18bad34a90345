-- ===== src/Service/Steps.antt =====
-- What the steps of the service that do not touch sessions keep, for every invariant that bears
-- with new profiles, games and presets (internal/service/chess/service.go).
use cheese_kakao_talk_bot.Prelude.{
  ℕ, String, ◌==◌, ◌≡◌, refl, subst, sym, Bool, true, false, List, [], ◌∷◌, Option, none, some, inl,
  inr, Bool-cases, All, if◌then◌else◌,
}
use cheese_kakao_talk_bot.Text.{trim_space}
use cheese_kakao_talk_bot.Action.Commands.{OptAll}
use cheese_kakao_talk_bot.Presets.Registry.{set_preset_opening_style}
use cheese_kakao_talk_bot.Memrepo.{
  ChessGame, ChessProfile, Memrepo, Inserted, find, same_text, profile_key, get_profile,
  upsert_profile, insert_as, insert_game, add_game, inserted, duplicate,
}
use cheese_kakao_talk_bot.ChessLib.{Outcome}
use cheese_kakao_talk_bot.Memrepo as Repo
use cheese_kakao_talk_bot.Service.Types.{
  SessionPayload, SessionIdentity, preset_required, EvaluateResult,
}
use cheese_kakao_talk_bot.Service.State.{Result, ok, err, Fate, put, Data, pure, raise}
use cheese_kakao_talk_bot.Service.Environment.{Environment}
use cheese_kakao_talk_bot.Service.Labels.{normalized, profile_cache_key}
use cheese_kakao_talk_bot.Service.Profiles.{
  is_missing, use_edited, unless_missing, set_style, apply_preset_style, cache_profile, known,
  fetch_stored, use_cached, fetch_profile, fetch_optional, store_profile,
}
use cheese_kakao_talk_bot.Service.Keeping.{
  Keeps, OfOk, Any, OfOk-Any, Keeps-pure, Keeps-raise, Keeps-if, Keeps-local, Keeps-call,
  Keeps-attempt, Keeps-then,
}
use cheese_kakao_talk_bot.Service.Rating.{apply_game_result}
use cheese_kakao_talk_bot.Service.Finish.{
  game_record, insert_record, known_before, look_up_record, count_game, after_insert,
  persist_finished_game,
}

pub found_in :
    {V : Type 0} (W : V → Type 0) (o : Option V) → ((v : V) → o ≡ some v → W v) → OptAll W o
found_in W none h = tt
found_in W (some v) h = h v refl

find-holds :
    (W : ChessProfile → Type 0) (k : String) (ps : List (String × ChessProfile))
    → All (λ kp. W kp.1) ps
    → OptAll W (find same_text k ps)
unfolding find
find-holds W k [] h = tt
find-holds W k ((j, p) ∷ ps) h = elim (Bool-cases (j == k)) [
  | inl e ↦ rw e h.0
  | inr e ↦ rw e (find-holds W k ps h.1)
]

-- Inserting a game does not touch the profiles.
insert_as-profiles :
    (o : Option ChessGame) (g : ChessGame) (m : Memrepo) → (insert_as o g m).1.profiles ≡ m.profiles
unfolding add_game
insert_as-profiles none g m = refl
insert_as-profiles (some x) g m = refl

pub insert_game-profiles :
    (g : ChessGame) (m : Memrepo) → (insert_game (some g) m).1.profiles ≡ m.profiles
unfolding insert_game
insert_game-profiles g m =
    insert_as-profiles
      (find same_text (Repo.session_key g.session_uuid g.player_hash) m.games_by_index) g m

-- The invariant bears with what reading a profile writes to the cache; profiles have `W`.
pub record Reads (E : Environment) (I : Data E.floats → Type 0) (W : ChessProfile → Type 0)
    : Type 0 where
  pub cached :
      (d : Data E.floats) → I d → (k : String) (p : ChessProfile) → d.profiles k ≡ some p → W p
  pub stored : (d : Data E.floats) → I d → All (λ kp. W kp.1) d.repo.profiles
  pub put_cached :
      (d : Data E.floats) (k : String) (p : ChessProfile)
      → W p
      → I d
      → I (record d { profiles = put k (some p) d.profiles })

-- The invariant bears with what all these steps write.
pub record Allows (E : Environment) (I : Data E.floats → Type 0) (W : ChessProfile → Type 0)
    : Type 0 where
  pub reads : Reads E I W
  pub put_repo :
      (d : Data E.floats) (r : Memrepo)
      → All (λ kp. W kp.1) r.profiles
      → I d
      → I (record d { repo = r })
  pub restyle :
      (d : Data E.floats) (name style : String)
      → I d
      → I
          (use_edited
            (set_preset_opening_style E.floats E.beyond E.styles d.registry name style)
            d).1
  pub counted :
      (before : Option ChessProfile) (id : SessionIdentity) (preset : String) (o : Outcome)
      (now : ℕ)
      → OptAll W before
      → W (apply_game_result E before id preset o now).0

module _ (E : Environment) (Fit : Fate → Type 0) {I : Data E.floats → Type 0}
    {W : ChessProfile → Type 0} (reads : Reads E I W) where
  pub Keeps-cache_profile :
      (id : SessionIdentity) (p : ChessProfile) → W p → Keeps Fit I (cache_profile E id p) Any
  unfolding cache_profile
  Keeps-cache_profile id p c =
      Keeps-then _ _
        (Keeps-attempt _
          (Keeps-call {W = Any} _ (λ d s. (reads.put_cached d (profile_cache_key E id) p c s, tt))))
        (λ r h. Keeps-pure tt tt)

  Keeps-known :
      (id : SessionIdentity) (o : Option ChessProfile) → OptAll W o → Keeps Fit I (known E id o) W
  unfolding known
  Keeps-known id none h = Keeps-raise _
  Keeps-known id (some p) h =
      Keeps-then {W = Any} _ _ (Keeps-cache_profile id p h) (λ u v. Keeps-pure p h)

  Keeps-fetch_stored : (id : SessionIdentity) → Keeps Fit I (fetch_stored E id) W
  unfolding fetch_stored get_profile
  Keeps-fetch_stored id =
      Keeps-then _ _
        (Keeps-call {W = OptAll W} _
          (λ d s. (s, find-holds W (profile_key id.player_hash id.room_hash) _ (reads.stored d s))))
        (Keeps-known id)

  Keeps-use_cached :
      (id : SessionIdentity) (o : Option ChessProfile)
      → OptAll W o
      → Keeps Fit I (use_cached E id o) W
  unfolding use_cached
  Keeps-use_cached id none h = Keeps-fetch_stored id
  Keeps-use_cached id (some p) h =
      Keeps-if (p.player_hash == "") (fetch_stored E id) (pure p) (λ e. Keeps-fetch_stored id)
        (λ e. Keeps-pure p h)

  pub Keeps-fetch_profile : (id : SessionIdentity) (b : Bool) → Keeps Fit I (fetch_profile E id b) W
  unfolding fetch_profile
  Keeps-fetch_profile id false = Keeps-fetch_stored id
  Keeps-fetch_profile id true =
      Keeps-then _ _
        (Keeps-call {W = OptAll W} _
          (λ d s. (s, found_in W (d.profiles (profile_cache_key E id)) (reads.cached d s _))))
        (Keeps-use_cached id)

  Keeps-unless_missing :
      (r : Result ChessProfile) → OfOk W r → Keeps Fit I (unless_missing r) (OptAll W)
  Keeps-unless_missing (ok p) h = Keeps-pure (some p) h
  Keeps-unless_missing (err e) h =
      Keeps-if (is_missing e) (pure none) (raise e) (λ f. Keeps-pure none tt) (λ f. Keeps-raise e)

  pub Keeps-fetch_optional :
      (id : SessionIdentity) (b : Bool) → Keeps Fit I (fetch_optional E id b) (OptAll W)
  unfolding fetch_optional
  Keeps-fetch_optional id b =
      Keeps-then _ _ (Keeps-attempt _ (Keeps-fetch_profile id b)) Keeps-unless_missing

  pub Keeps-known_before :
      (now : ℕ) (id : SessionIdentity) (p : SessionPayload) (g : E.chess.Play)
      (x : Option ChessGame)
      → Keeps Fit I (known_before E now id p g x) Any
  unfolding known_before
  Keeps-known_before now id p g none = Keeps-raise _
  Keeps-known_before now id p g (some x) =
      Keeps-then _ _ (Keeps-fetch_optional id true) (λ k h. Keeps-pure _ tt)

module _ (E : Environment) (Fit : Fate → Type 0) {I : Data E.floats → Type 0}
    {W : ChessProfile → Type 0} (allows : Allows E I W) where
  pub Keeps-store_profile : (p : ChessProfile) → W p → Keeps Fit I (store_profile E p) Any
  unfolding store_profile upsert_profile
  Keeps-store_profile p c = Keeps-call _ (λ d s.
      (allows.put_repo d (upsert_profile (some p) d.repo) (c, allows.reads.stored d s) s, tt))

  Keeps-set_style : (name style : String) → Keeps Fit I (set_style E name style) Any
  unfolding set_style
  Keeps-set_style name style = Keeps-local _ (λ d s. (allows.restyle d name style s, OfOk-Any _))

  pub Keeps-apply_preset_style :
      (style name : String) → Keeps Fit I (apply_preset_style E style name) Any
  unfolding apply_preset_style
  Keeps-apply_preset_style style name =
      let styled = set_style E (normalized E name) (trim_space style) in
      let named = if normalized E name == "" then raise preset_required else styled in
      Keeps-if (trim_space style == "") (pure tt) named (λ e. Keeps-pure tt tt)
        λ e.
          Keeps-if (normalized E name == "") (raise preset_required) styled
            (λ f. Keeps-raise preset_required)
            (λ f. Keeps-set_style (normalized E name) (trim_space style))

  module _ (now : ℕ) (id : SessionIdentity) (p : SessionPayload) (g : E.chess.Play) where
    Keeps-insert_record : (x : ChessGame) → Keeps Fit I (insert_record E now id p g x) Any
    unfolding insert_record
    Keeps-insert_record x = Keeps-call _ λ d s. (
      allows.put_repo d (insert_game (some x) d.repo).1
          (subst (λ ps. All (λ kp. W kp.1) ps) (sym (insert_game-profiles x d.repo))
            (allows.reads.stored d s))
          s,
      tt,
    )

    Keeps-count_game : (i : ℕ) → Keeps Fit I (count_game E now id p g i) Any
    unfolding count_game
    Keeps-count_game i = Keeps-then _ _ (Keeps-fetch_optional E Fit allows.reads id false) λ k h.
        let c = allows.counted k id p.preset (E.chess.outcome g) now h in
        Keeps-then {W = Any} _ _ (Keeps-store_profile _ c) λ u v.
          Keeps-then {W = Any} _ _ (Keeps-cache_profile E Fit allows.reads id _ c)
            λ u v. Keeps-pure _ tt

    Keeps-after_insert : (r : Inserted) → Keeps Fit I (after_insert E now id p g r) Any
    unfolding after_insert look_up_record
    Keeps-after_insert (inserted i) = Keeps-count_game i
    Keeps-after_insert duplicate =
        Keeps-then _ _ (Keeps-attempt _ (Keeps-call {W = Any} _ (λ d s. (s, tt))))
          (λ r h. Keeps-known_before E Fit allows.reads now id p g _)

    pub Keeps-persist_finished_game :
        (r : EvaluateResult) → Keeps Fit I (persist_finished_game E now id p g r) Any
    unfolding persist_finished_game
    Keeps-persist_finished_game r =
        Keeps-then _ _ (Keeps-insert_record (game_record E now id p g r))
          (λ i h. Keeps-after_insert i)
