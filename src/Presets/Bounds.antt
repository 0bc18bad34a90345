-- ===== src/Presets/Bounds.antt =====
-- ValidatePreset (internal/chess/preset.go) reads no candidate weight past the end.
use Prim.Native.Char.{Char}
use cheese_kakao_talk_bot.Prelude.{
  ℕ, zero, suc, ◌+◌, ◌≤◌, String, Bool, true, false, ◌&&◌, ◌==◌, ◌≡◌, ◌≢◌, refl, subst, inl, inr,
  List, [], ◌∷◌, none, some, arith, Bool-cases, length, if◌then◌else◌,
}
use cheese_kakao_talk_bot.Text.{trim_space}
use cheese_kakao_talk_bot.Presets.Types.{
  ℤ, pos, negsuc, less, Floats, OpeningPreference, OpeningCatalogConfig, DifficultyPreset,
  PresetError, index_out_of_range,
}
use cheese_kakao_talk_bot.Presets.Validate.{
  Failure, check, ◌then◌, check_keys, check_weights, check_numbers, check_limits, rounds,
  validate_opening_preference, validate_opening_preferences, validate_opening_catalog,
  validate_preset, is_empty, first_blank,
}
use cheese_kakao_talk_bot.Presets.Laws.{then-split, check-false}

abbrev is_panic : PresetError → Bool
is_panic index_out_of_range = true
is_panic _ = false

-- Not the panic of an index out of range.
abbrev IsNoPanic : Failure → Type 0
IsNoPanic none = Unit
IsNoPanic (some e) = is_panic e ≡ false

record Sound (f : Failure) : Type 0 where
  is_sound : IsNoPanic f

none-Sound : Sound none
none-Sound = record { is_sound = tt }

-- The second matters only if the first passes.
then-Sound_after : (a b : Failure) → Sound a → (a ≡ none → Sound b) → Sound (a then b)
unfolding ◌then◌
then-Sound_after none b ha hb = hb refl
then-Sound_after (some e) b ha hb = ha

then-Sound : (a b : Failure) → Sound a → Sound b → Sound (a then b)
then-Sound a b ha hb = then-Sound_after a b ha (λ _. hb)

check-Sound : (c : Bool) (e : PresetError) → is_panic e ≡ false → Sound (check c e)
unfolding check
check-Sound true e h = record { is_sound = h }
check-Sound false e h = none-Sound

first_blank-Sound :
    (e : ℕ → PresetError) (i : ℕ) (ms : List String)
    → ((n : ℕ) → is_panic (e n) ≡ false)
    → Sound (first_blank e i ms)
unfolding first_blank
first_blank-Sound e i [] h = none-Sound
first_blank-Sound e i (m ∷ ms) h =
    then-Sound _ _ (check-Sound _ _ (h i)) (first_blank-Sound e (i + 1) ms h)

Sound-no_panic : (f : Failure) → Sound f → f ≢ some index_out_of_range
Sound-no_panic f h e = let bad = (subst Sound e h).is_sound in absurd (cc)

module _ (beyond : Char → Char) where
  check_keys-Sound : (i : ℕ) (seen ts : List String) → Sound (check_keys beyond i seen ts)
  unfolding check_keys
  check_keys-Sound i seen [] = none-Sound
  check_keys-Sound i seen (t ∷ ts) =
      then-Sound _ _ (check-Sound _ _ refl)
        (then-Sound _ _ (check-Sound _ _ refl) (check_keys-Sound (i + 1) _ ts))

  validate_opening_catalog-Sound :
      (c : OpeningCatalogConfig) → Sound (validate_opening_catalog beyond c)
  unfolding validate_opening_catalog
  validate_opening_catalog-Sound c =
      elim (Bool-cases (is_empty c.keys && (trim_space c.key == ""))) [
        | inl e ↦ rw e (
            then-Sound _ _ (check-Sound _ _ refl)
              (then-Sound _ _ (check-Sound _ _ refl) (check-Sound _ _ refl)))
        | inr e ↦ rw e (
            then-Sound _ _ (then-Sound _ _ (check-Sound _ _ refl) (check-Sound _ _ refl)) (
              then-Sound _ _ (check-Sound _ _ refl)
                (then-Sound _ _ (check_keys-Sound 0 [] c.keys) (check-Sound _ _ refl))))
      ]

  module _ (X : Floats) where
    check_weights-Sound :
        (n i : ℕ) (ws : List X.F) (sum : X.F)
        → n ≤ length ws
        → Sound (check_weights beyond X n i ws sum)
    unfolding check_weights
    check_weights-Sound zero i ws sum h = check-Sound _ _ refl
    check_weights-Sound (suc n) i [] sum h = absurd (omega arith)
    check_weights-Sound (suc n) i (w ∷ ws) sum h =
        then-Sound _ _ (check-Sound _ _ refl)
          (check_weights-Sound n (i + 1) ws (X.plus sum w) (omega arith))

    preference-Sound : (p : OpeningPreference X) → Sound (validate_opening_preference beyond X p)
    unfolding validate_opening_preference
    preference-Sound p = then-Sound _ _ (check-Sound _ _ refl) (
        then-Sound _ _ (check-Sound _ _ refl) (
          then-Sound _ _ (check-Sound _ _ refl) (
            then-Sound _ _ (check-Sound _ _ refl) (
              then-Sound _ _ (check-Sound _ _ refl) (
                then-Sound _ _ (check-Sound _ _ refl) (
                  then-Sound _ _ (first_blank-Sound _ 0 p.white_moves (λ n. refl))
                    (first_blank-Sound _ 0 p.black_moves (λ n. refl))))))))

    preferences-Sound :
        (ps : List (OpeningPreference X)) → Sound (validate_opening_preferences beyond X ps)
    unfolding validate_opening_preferences
    preferences-Sound [] = none-Sound
    preferences-Sound (p ∷ ps) = then-Sound _ _ (preference-Sound p) (preferences-Sound ps)

    check_limits-Sound : (p : DifficultyPreset X) → Sound (check_limits beyond X p)
    unfolding check_limits
    check_limits-Sound p = then-Sound _ _ (check-Sound _ _ refl) (
        then-Sound _ _ (check-Sound _ _ refl)
          (then-Sound _ _ (check-Sound _ _ refl) (check-Sound _ _ refl)))

    check_numbers-Sound : (p : DifficultyPreset X) → Sound (check_numbers beyond X p)
    unfolding check_numbers
    check_numbers-Sound p = then-Sound _ _ (check-Sound _ _ refl) (
        then-Sound _ _ (check-Sound _ _ refl) (
          then-Sound _ _ (check-Sound _ _ refl) (
            then-Sound _ _ (check-Sound _ _ refl) (
              then-Sound _ _ (check-Sound _ _ refl) (
                then-Sound _ _ (check-Sound _ _ refl)
                  (then-Sound _ _ (check-Sound _ _ refl) (check-Sound _ _ refl)))))))

    rounds-bound : (z : ℤ) (n : ℕ) → less (pos n) z ≡ false → rounds beyond X z ≤ n
    rounds-bound (pos m) n h = ground arith
    rounds-bound (negsuc m) n h = ground arith

    -- What the `switch` leaves: enough weights.
    check_numbers-bound :
        (p : DifficultyPreset X)
        → check_numbers beyond X p ≡ none
        → rounds beyond X p.primary_choices ≤ length p.candidate_weights
    unfolding check_numbers
    check_numbers-bound p h =
        let h1 = (then-split _ _ h).1 in
        let h2 = (then-split _ _ h1).1 in
        let h3 = (then-split _ _ h2).1 in
        let h4 = (then-split _ _ h3).1 in
        let h5 = (then-split _ _ h4).1 in
        let h6 = (then-split _ _ h5).1 in
        let h7 = (then-split _ _ h6).1 in
        rounds-bound p.primary_choices (length p.candidate_weights) (check-false _ _ h7)

    validate_preset-Sound : (p : DifficultyPreset X) → Sound (validate_preset beyond X p)
    unfolding validate_preset
    validate_preset-Sound p = then-Sound_after _ _ (check_numbers-Sound p) (λ h.
        then-Sound _ _ (check_weights-Sound _ 0 p.candidate_weights _ (check_numbers-bound p h)) (
          then-Sound _ _ (check_limits-Sound p) (
            then-Sound _ _ (preferences-Sound p.opening_preferences)
              (validate_opening_catalog-Sound p.opening_catalog))))

    -- ValidatePreset ends, on every preset, without reading a candidate weight that is not there.
    pub validate_preset-no_panic :
        (p : DifficultyPreset X) → validate_preset beyond X p ≢ some index_out_of_range
    validate_preset-no_panic p = Sound-no_panic _ (validate_preset-Sound p)
