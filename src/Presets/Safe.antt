-- ===== src/Presets/Safe.antt =====
-- The registry of presets stays valid: the edits of internal/chess/preset.go validate what they
-- write.
use Prim.Native.Char.{Char}
use cheese_kakao_talk_bot.Prelude.{
  String, Bool, true, false, ◌==◌, ◌≡◌, refl, inl, inr, List, [], ◌∷◌, none, some, arith,
  Bool-cases, Option-cases, if◌then◌else◌, All,
}
use cheese_kakao_talk_bot.Text.{trim_space}
use cheese_kakao_talk_bot.Presets.Types.{
  Floats, OpeningPreference, OpeningCatalogConfig, DifficultyPreset, PresetError,
}
use cheese_kakao_talk_bot.Presets.Tokens.{parse_style_keys}
use cheese_kakao_talk_bot.Presets.Validate.{
  Failure, ◌then◌, validate_opening_catalog, validate_preset,
}
use cheese_kakao_talk_bot.Presets.Registry.{
  Styles, failed, missing, loaded, Registry, Edited, refused, edited, Collected, unknown, collected,
  find_preset, put_preset, edit, unless, set_preset_opening_preferences,
  add_preset_opening_preference, set_preset_opening_catalog, set_preset_opening_style,
  normalize_opening_catalog_config, use_tokens, use_styles, use_collected, store_styles,
  collect_styles, styled,
}
use cheese_kakao_talk_bot.Presets.Parts.{
  with_preferences, with_catalog, preferences_of, catalog_of, snoc_preferences, clear_style-valid,
}

-- The functions that edit the registry, with their arguments.
pub data Edit (X : Floats) : Type 0 where
  set_preferences : String → List (OpeningPreference X) → Edit X
  add_preference : String → OpeningPreference X → Edit X
  set_catalog : String → OpeningCatalogConfig → Edit X
  set_style : Styles → String → String → Edit X

module _ (beyond : Char → Char) (X : Floats) where
  abbrev pub perform : Edit X → Registry X → Edited X
  perform (set_preferences n ps) r = set_preset_opening_preferences X beyond r n ps
  perform (add_preference n p) r = add_preset_opening_preference X beyond r n p
  perform (set_catalog n c) r = set_preset_opening_catalog X beyond r n c
  perform (set_style styles n s) r = set_preset_opening_style X beyond styles r n s

  abbrev pub after : Registry X → Edited X → Registry X
  after r (refused e) = r
  after r (edited r') = r'

  unfoldable pub edits : List (Edit X) → Registry X → Registry X
  edits [] r = r
  edits (e ∷ es) r = edits es (after r (perform e r))

  abbrev pub IsValid : Registry X → Type 0
  IsValid r = All (λ np. validate_preset beyond X np.1 ≡ none) r

  find_preset-IsValid :
      (r : Registry X) (n : String) (p : DifficultyPreset X)
      → IsValid r
      → find_preset X r n ≡ some p
      → validate_preset beyond X p ≡ none
  unfolding find_preset
  find_preset-IsValid [] n p v e = absurd (cc)
  find_preset-IsValid ((k, q) ∷ r) n p v e = elim (Bool-cases (k == n)) [
    | inl h ↦ grind (arith, v.0)
    | inr h ↦ find_preset-IsValid r n p v.1 (grind arith)
  ]

  put_preset-IsValid :
      (r : Registry X) (n : String) (q : DifficultyPreset X)
      → IsValid r
      → validate_preset beyond X q ≡ none
      → IsValid (put_preset X r n q)
  unfolding put_preset
  put_preset-IsValid [] n q v h = tt
  put_preset-IsValid ((k, p) ∷ r) n q v h = elim (Bool-cases (k == n)) [
    | inl e ↦ rw e (h, v.1)
    | inr e ↦ rw e (v.0, put_preset-IsValid r n q v.1 h)
  ]

  module _ (r : Registry X) (v : IsValid r) where
    record Keeps (e : Edited X) : Type 0 where
      still_valid : IsValid (after r e)

    refused-Keeps : (e : PresetError) → Keeps (refused e)
    refused-Keeps e = record { still_valid = v }

    put-Keeps :
        (n : String) (q : DifficultyPreset X)
        → validate_preset beyond X q ≡ none
        → Keeps (edited (put_preset X r n q))
    put-Keeps n q h = record { still_valid = put_preset-IsValid r n q v h }

    edit-IsValid :
        (n : String) (f : DifficultyPreset X → Edited X)
        → ((p : DifficultyPreset X) → validate_preset beyond X p ≡ none → Keeps (f p))
        → Keeps (edit X r n f)
    unfolding edit
    edit-IsValid n f h = elim (Option-cases (find_preset X r n)) [
      | inl e ↦ rw e (refused-Keeps _)
      | inr (p, e) ↦ rw e (h p (find_preset-IsValid r n p v e))
    ]

    unless-IsValid : (g : Failure) (k : Edited X) → (g ≡ none → Keeps k) → Keeps (unless X g k)
    unfolding unless
    unless-IsValid none k h = h refl
    unless-IsValid (some e) k h = refused-Keeps e

    if-Keeps : (b : Bool) (x y : Edited X) → Keeps x → Keeps y → Keeps (if b then x else y)
    if-Keeps true x y hx hy = hx
    if-Keeps false x y hx hy = hy

    store_styles-IsValid :
        (n : String) (p : DifficultyPreset X) (names ts : List String)
        → validate_preset beyond X p ≡ none
        → Keeps (store_styles X beyond r n p names ts)
    unfolding store_styles
    store_styles-IsValid n p names [] h = refused-Keeps _
    store_styles-IsValid n p names (t ∷ ts) h =
        unless-IsValid
          (validate_opening_catalog beyond (styled X beyond names t ts p.opening_catalog)) _
          (λ c. put-Keeps n _ (with_catalog beyond X p _ h c))

    use_collected-IsValid :
        (n : String) (p : DifficultyPreset X) (c : Collected)
        → validate_preset beyond X p ≡ none
        → Keeps (use_collected X beyond r n p c)
    unfolding use_collected
    use_collected-IsValid n p (unknown t) h = refused-Keeps _
    use_collected-IsValid n p (collected names raw) h = store_styles-IsValid n p names _ h

    use_tokens-IsValid :
        (n : String) (p : DifficultyPreset X) (styles : Styles) (ts : List String)
        → validate_preset beyond X p ≡ none
        → Keeps (use_tokens X beyond r n p styles ts)
    unfolding use_tokens use_styles
    use_tokens-IsValid n p styles [] h = refused-Keeps _
    use_tokens-IsValid n p failed (t ∷ ts) h = refused-Keeps _
    use_tokens-IsValid n p missing (t ∷ ts) h = refused-Keeps _
    use_tokens-IsValid n p (loaded find) (t ∷ ts) h =
        use_collected-IsValid n p (collect_styles find (t ∷ ts)) h

    perform-IsValid : (e : Edit X) → Keeps (perform e r)
    unfolding set_preset_opening_preferences add_preset_opening_preference
        set_preset_opening_catalog set_preset_opening_style
    perform-IsValid (set_preferences n ps) =
        edit-IsValid n _
          λ p h. unless-IsValid _ _ (λ c. put-Keeps n _ (with_preferences beyond X p ps h c))
    perform-IsValid (add_preference n o) = edit-IsValid n _ λ p h. unless-IsValid _ _ (λ c.
        put-Keeps n _ (
          with_preferences beyond X p _ h
            (snoc_preferences beyond X p.opening_preferences o (preferences_of beyond X p h) c)))
    perform-IsValid (set_catalog n c) = edit-IsValid n _ λ p h.
        unless-IsValid
          (validate_opening_catalog beyond (normalize_opening_catalog_config X beyond c)) _
          (λ k. put-Keeps n _ (with_catalog beyond X p _ h k))
    perform-IsValid (set_style styles n s) = edit-IsValid n _ λ p h.
        if-Keeps (trim_space s == "") _ _
          (put-Keeps n _ (
            with_catalog beyond X p _ h
              (clear_style-valid beyond X p.opening_catalog (catalog_of beyond X p h))))
          (use_tokens-IsValid n p styles (parse_style_keys beyond (trim_space s)) h)

  -- Whatever edits the program makes, each refused or done, a registry whose presets all pass
  -- ValidatePreset keeps passing it.
  pub edits-IsValid : (es : List (Edit X)) (r : Registry X) → IsValid r → IsValid (edits es r)
  unfolding edits
  edits-IsValid [] r v = v
  edits-IsValid (e ∷ es) r v = edits-IsValid es _ (perform-IsValid r v e).still_valid
