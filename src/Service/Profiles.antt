-- ===== src/Service/Profiles.antt =====
-- Presets and profiles as the service reads and writes them (applyPresetStyle, fetchProfile and
-- cacheProfile of internal/service/chess/service.go).
use cheese_kakao_talk_bot.Prelude.{
  String, Bool, true, false, ◌==◌, Option, none, some, if◌then◌else◌,
}
use cheese_kakao_talk_bot.Text.{trim_space}
use cheese_kakao_talk_bot.Presets.Types.{Floats}
use cheese_kakao_talk_bot.Presets.Registry.{
  Edited, refused, edited, set_preset_opening_style, Found, unknown_name, found, get_preset,
}
use cheese_kakao_talk_bot.Memrepo.{ChessProfile, get_profile, upsert_profile}
use cheese_kakao_talk_bot.Service.Types.{
  SessionIdentity, Error, preset, preset_required, profile_not_found,
}
use cheese_kakao_talk_bot.Service.State.{
  Result, ok, err, Data, M, pure, raise, attempt, local, call, put, ◌>>=◌, ◌>>◌,
}
use cheese_kakao_talk_bot.Service.Environment.{Environment}
use cheese_kakao_talk_bot.Service.Labels.{normalized, profile_cache_key}

abbrev pub use_edited : {X : Floats} → Edited X → Data X → Result (Unit {0}) × Data X
use_edited (refused e) d = (err (preset e), d)
use_edited (edited r) d = (ok tt, record d { registry = r })

-- errors.Is(err, ErrProfileNotFound)
abbrev pub is_missing : Error → Bool
is_missing profile_not_found = true
is_missing _ = false

-- That there is no profile is no error.
abbrev pub unless_missing : {X : Floats} → Result ChessProfile → M X (Option ChessProfile)
unless_missing (ok p) = pure (some p)
unless_missing (err e) = if is_missing e then pure none else raise e

-- A profile that was not read is left out.
abbrev pub to_option : {A : Type 0} → Result A → Option A
to_option (ok a) = some a
to_option (err e) = none

module _ (E : Environment) where
  unfoldable pub set_style : String → String → M E.floats (Unit {0})
  unfolding set_preset_opening_style
  set_style name style =
      local λ d.
        use_edited (set_preset_opening_style E.floats E.beyond E.styles d.registry name style) d

  unfoldable pub apply_preset_style : String → String → M E.floats (Unit {0})
  unfolding set_style normalized trim_space
  apply_preset_style style_key name =
      if trim_space style_key == ""
      then pure tt
      else if normalized E name == ""
      then raise preset_required
      else set_style (normalized E name) (trim_space style_key)

  abbrev pub to_result : Found E.floats → Result (Unit {0})
  to_result (unknown_name e) = err (preset e)
  to_result (found p) = ok tt

  -- `_, err := corechess.GetPreset(name)`
  unfoldable pub check_preset : String → M E.floats (Unit {0})
  unfolding get_preset
  check_preset name = local λ d. (to_result (get_preset E.floats d.registry name), d)

  unfoldable pub cache_profile : SessionIdentity → ChessProfile → M E.floats (Unit {0})
  unfolding profile_cache_key
  cache_profile id p = do
    attempt (
        call λ d. (ok tt, record d { profiles = put (profile_cache_key E id) (some p) d.profiles }))
    pure tt

  unfoldable pub known : SessionIdentity → Option ChessProfile → M E.floats ChessProfile
  unfolding cache_profile
  known id none = raise profile_not_found
  known id (some p) = do cache_profile id p; pure p

  -- fetchProfile without the cache
  unfoldable pub fetch_stored : SessionIdentity → M E.floats ChessProfile
  unfolding get_profile known
  fetch_stored id = do
    p ← call (λ d. (ok (get_profile id.player_hash id.room_hash d.repo), d))
    known id p

  -- A missing entry leaves an empty profile, which has no player either.
  unfoldable pub use_cached : SessionIdentity → Option ChessProfile → M E.floats ChessProfile
  unfolding fetch_stored
  use_cached id none = fetch_stored id
  use_cached id (some p) = if p.player_hash == "" then fetch_stored id else pure p

  unfoldable pub fetch_profile : SessionIdentity → Bool → M E.floats ChessProfile
  unfolding fetch_stored use_cached profile_cache_key
  fetch_profile id false = fetch_stored id
  fetch_profile id true = do
    c ← call (λ d. (ok (d.profiles (profile_cache_key E id)), d))
    use_cached id c

  -- The profile, or none if there is none; an error of the cache or the database stays one.
  unfoldable pub fetch_optional : SessionIdentity → Bool → M E.floats (Option ChessProfile)
  unfolding fetch_profile
  fetch_optional id allow_cache = do r ← attempt (fetch_profile id allow_cache); unless_missing r

  unfoldable pub store_profile : ChessProfile → M E.floats (Unit {0})
  unfolding upsert_profile
  store_profile p = call λ d. (ok tt, record d { repo = upsert_profile (some p) d.repo })
