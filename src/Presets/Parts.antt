-- ===== src/Presets/Parts.antt =====
-- The parts of a valid preset (internal/chess/preset.go), and the presets made by changing one.
use Prim.Native.Char.{Char}
use cheese_kakao_talk_bot.Prelude.{
  Bool, false, ◌&&◌, not, ◌==◌, ◌≡◌, refl, subst, inl, inr, List, [], ◌∷◌, ◌++◌, none, Bool-cases,
}
use cheese_kakao_talk_bot.Text.{trim_space}
use cheese_kakao_talk_bot.Text.Laws.{trim_space_idem}
use cheese_kakao_talk_bot.Presets.Types.{
  Floats, OpeningPreference, OpeningCatalogConfig, DifficultyPreset, bad_color,
}
use cheese_kakao_talk_bot.Presets.Validate.{
  Failure, check, check_keys, check_bounds, is_known_color, catalog_color, check_numbers,
  check_limits, validate_opening_preference, validate_opening_preferences, validate_opening_catalog,
  validate_preset, is_empty,
}
use cheese_kakao_talk_bot.Presets.Registry.{clear_style}
use cheese_kakao_talk_bot.Presets.Laws.{
  then-split, then-join, check-none, if-true, if-false, if-none,
}

module _ (beyond : Char → Char) (X : Floats) where
  -- What the parts of a valid preset say.
  pub with_preferences :
      (p : DifficultyPreset X) (ps : List (OpeningPreference X))
      → validate_preset beyond X p ≡ none
      → validate_opening_preferences beyond X ps ≡ none
      → validate_preset beyond X (record p { opening_preferences = ps }) ≡ none
  unfolding validate_preset check_numbers check_limits
  with_preferences p ps v h =
      let (v1, w1) = then-split _ _ v in
      let (v2, w2) = then-split _ _ w1 in
      let (v3, w3) = then-split _ _ w2 in
      let (v4, w4) = then-split _ _ w3 in
      then-join _ _ v1 (then-join _ _ v2 (then-join _ _ v3 (then-join _ _ h w4)))

  pub with_catalog :
      (p : DifficultyPreset X) (c : OpeningCatalogConfig)
      → validate_preset beyond X p ≡ none
      → validate_opening_catalog beyond c ≡ none
      → validate_preset beyond X (record p { opening_catalog = c }) ≡ none
  unfolding validate_preset check_numbers check_limits
  with_catalog p c v h =
      let (v1, w1) = then-split _ _ v in
      let (v2, w2) = then-split _ _ w1 in
      let (v3, w3) = then-split _ _ w2 in
      let (v4, w4) = then-split _ _ w3 in
      then-join _ _ v1 (then-join _ _ v2 (then-join _ _ v3 (then-join _ _ v4 h)))

  pub preferences_of :
      (p : DifficultyPreset X)
      → validate_preset beyond X p ≡ none
      → validate_opening_preferences beyond X p.opening_preferences ≡ none
  unfolding validate_preset
  preferences_of p v = (then-split _ _ (then-split _ _ (then-split _ _ (then-split _ _ v).1).1).1).0

  pub catalog_of :
      (p : DifficultyPreset X)
      → validate_preset beyond X p ≡ none
      → validate_opening_catalog beyond p.opening_catalog ≡ none
  unfolding validate_preset
  catalog_of p v = (then-split _ _ (then-split _ _ (then-split _ _ (then-split _ _ v).1).1).1).1

  pub snoc_preferences :
      (ps : List (OpeningPreference X)) (o : OpeningPreference X)
      → validate_opening_preferences beyond X ps ≡ none
      → validate_opening_preference beyond X o ≡ none
      → validate_opening_preferences beyond X (ps ++ (o ∷ [])) ≡ none
  unfolding validate_opening_preferences
  snoc_preferences [] o v h = then-join _ _ h refl
  snoc_preferences (p ∷ ps) o v h =
      let (v1, w1) = then-split _ _ v in then-join _ _ v1 (snoc_preferences ps o w1 h)

  abbrev has_none : OpeningCatalogConfig → Bool
  has_none c = is_empty c.keys && (trim_space c.key == "")

  bounds_of :
      (c : OpeningCatalogConfig)
      → validate_opening_catalog beyond c ≡ none
      → check_bounds beyond c ≡ none
  unfolding validate_opening_catalog
  bounds_of c v = elim (Bool-cases (has_none c)) [
    | inl e ↦ (then-split _ _ (if-true (has_none c) _ _ v e)).1
    | inr e ↦ (then-split _ _ (if-false (has_none c) _ _ v e)).0
  ]

  has_key :
      (c : OpeningCatalogConfig) → has_none (clear_style X beyond c) ≡ false → has_none c ≡ false
  unfolding clear_style
  has_key c e =
      let key = subst (λ t. (t == "") ≡ false) (trim_space_idem c.key) e in
      elim (Bool-cases (is_empty c.keys)) [ inl h ↦ rw h key | inr h ↦ rw h refl ]

  abbrev check_color : OpeningCatalogConfig → Failure
  check_color c = check (not (is_known_color beyond (catalog_color beyond c))) (bad_color c.color)

  color_of :
      (c : OpeningCatalogConfig)
      → validate_opening_catalog beyond c ≡ none
      → has_none c ≡ false
      → check_color c ≡ none
  unfolding validate_opening_catalog
  color_of c v e = (then-split _ _ (then-split _ _ (if-false (has_none c) _ _ v e)).1).0

  pub clear_style-valid :
      (c : OpeningCatalogConfig)
      → validate_opening_catalog beyond c ≡ none
      → validate_opening_catalog beyond (clear_style X beyond c) ≡ none
  unfolding clear_style validate_opening_catalog check_keys
  clear_style-valid c v =
      if-none (has_none (clear_style X beyond c)) _ _
        (λ e. then-join _ _ (check-none _ _ refl) (bounds_of c v))
        (λ e.
          then-join _ _ (bounds_of c v)
            (then-join _ _ (color_of c v (has_key c e)) (then-join _ _ refl (check-none _ _ refl))))
