-- ===== src/Presets/Registry.antt =====
-- The registry DefaultPresets of internal/chess/preset.go, and the functions that read and edit it.
use Prim.Native.Char.{Char}
use cheese_kakao_talk_bot.Prelude.{
  String, ◌⧺◌, ◌==◌, List, [], ◌∷◌, ◌++◌, Option, none, some, if◌then◌else◌,
}
use cheese_kakao_talk_bot.Text.{trim_space, to_lower}
use cheese_kakao_talk_bot.Presets.Types.{
  Floats, OpeningPreference, OpeningCatalogConfig, DifficultyPreset, PresetError, unknown_preset,
  style_required, styles_failed, styles_missing, unknown_style, no_eco_entries,
}
use cheese_kakao_talk_bot.Presets.Tokens.{normalize_catalog_tokens, parse_style_keys}
use cheese_kakao_talk_bot.Presets.Validate.{
  Failure, validate_opening_catalog, validate_opening_preference, validate_opening_preferences,
}

-- What openingbook.LoadStyleCatalog gives: the file is read by code that is a parameter here.
pub record StyleGroup : Type 0 where
  pub key : String
  pub ecos : List String

pub data Styles : Type 0 where
  failed : Styles
  missing : Styles
  loaded : (String → Option StyleGroup) → Styles

-- The ECO codes of the groups of the tokens, and the groups' keys.
pub data Collected : Type 0 where
  unknown : String → Collected
  collected : List String → List String → Collected

-- The codes that are not blank, trimmed.
unfoldable pub eco_tokens : List String → List String
unfolding trim_space
eco_tokens [] = []
eco_tokens (e ∷ es) =
    let rest = eco_tokens es in if trim_space e == "" then rest else trim_space e ∷ rest

abbrev add_group : StyleGroup → Collected → Collected
add_group g (unknown t) = unknown t
add_group g (collected ks es) = collected (g.key ∷ ks) (eco_tokens g.ecos ++ es)

abbrev collect_one : String → Option StyleGroup → Collected → Collected
collect_one t none rest = unknown t
collect_one t (some g) rest = add_group g rest

-- The loop of SetPresetOpeningStyle over the style tokens
unfoldable pub collect_styles : (String → Option StyleGroup) → List String → Collected
unfolding eco_tokens
collect_styles find [] = collected [] []
collect_styles find (t ∷ ts) = collect_one t (find t) (collect_styles find ts)

-- strings.Join(keys, ",")
unfoldable pub join_commas : List String → String
join_commas [] = ""
join_commas (k ∷ []) = k
join_commas (k ∷ l ∷ ks) = k ⧺ "," ⧺ join_commas (l ∷ ks)

-- GetPreset's `switch`: the names with an older spelling.
unfoldable pub preset_alias : String → String
preset_alias n =
    if n == "beginner"
    then "level1"
    else if n == "intermediate"
    then "level5"
    else if n == "advanced"
    then "level7"
    else if n == "master"
    then "level8"
    else n

module _ (X : Floats) where
  abbrev pub Registry : Type 0
  Registry = List (String × DifficultyPreset X)

  unfoldable pub find_preset : Registry → String → Option (DifficultyPreset X)
  find_preset [] n = none
  find_preset ((k, p) ∷ r) n = let rest = find_preset r n in if k == n then some p else rest

  -- `DefaultPresets[name] = preset` for a name of the map
  unfoldable pub put_preset : Registry → String → DifficultyPreset X → Registry
  put_preset [] n q = []
  put_preset ((k, p) ∷ r) n q =
      let rest = put_preset r n q in if k == n then (k, q) ∷ r else (k, p) ∷ rest

  -- The edits end with an error or with the new registry.
  pub data Edited : Type 0 where
    refused : PresetError → Edited
    edited : Registry → Edited

  pub data Found : Type 0 where
    unknown_name : PresetError → Found
    found : DifficultyPreset X → Found

  abbrev or_unknown : String → Option (DifficultyPreset X) → Found
  or_unknown n none = unknown_name (unknown_preset n)
  or_unknown n (some p) = found p

  unfoldable pub get_preset : Registry → String → Found
  unfolding find_preset preset_alias
  get_preset r n = or_unknown (preset_alias n) (find_preset r (preset_alias n))

  abbrev pub edit_found :
      String → Option (DifficultyPreset X) → (DifficultyPreset X → Edited) → Edited
  edit_found n none f = refused (unknown_preset n)
  edit_found n (some p) f = f p

  -- `preset, ok := DefaultPresets[name]`, and what follows for a preset that is there
  unfoldable pub edit : Registry → String → (DifficultyPreset X → Edited) → Edited
  unfolding find_preset
  edit r n f = edit_found n (find_preset r n) f

  unfoldable pub unless : Failure → Edited → Edited
  unless (some e) k = refused e
  unless none k = k

  module _ (beyond : Char → Char) where
    unfoldable pub set_preset_opening_preferences :
        Registry → String → List (OpeningPreference X) → Edited
    unfolding edit unless put_preset validate_opening_preferences
    set_preset_opening_preferences r n ps = edit r n λ p.
        unless (validate_opening_preferences beyond X ps)
          (edited (put_preset r n (record p { opening_preferences = ps })))

    unfoldable pub add_preset_opening_preference : Registry → String → OpeningPreference X → Edited
    unfolding edit unless put_preset validate_opening_preference
    add_preset_opening_preference r n o = edit r n λ p.
        unless (validate_opening_preference beyond X o) (
          edited
            (put_preset r n (record p { opening_preferences = p.opening_preferences ++ (o ∷ []) })))

    abbrev first_or : String → List String → String
    first_or k [] = k
    first_or k (t ∷ ts) = if k == "" then t else k

    unfoldable pub normalize_opening_catalog_config : OpeningCatalogConfig → OpeningCatalogConfig
    unfolding normalize_catalog_tokens trim_space to_lower
    normalize_opening_catalog_config c =
        let tokens = normalize_catalog_tokens beyond c.keys in
        record {
          key = first_or (trim_space c.key) tokens;
          keys = tokens;
          color = to_lower beyond (trim_space c.color);
          max_ply = c.max_ply;
          min_weight = c.min_weight;
          style_key = trim_space c.style_key;
        }

    unfoldable pub set_preset_opening_catalog : Registry → String → OpeningCatalogConfig → Edited
    unfolding edit unless put_preset validate_opening_catalog normalize_opening_catalog_config
    set_preset_opening_catalog r n c = edit r n λ p.
        unless (validate_opening_catalog beyond (normalize_opening_catalog_config c)) (
          edited
            (put_preset r n (record p { opening_catalog = normalize_opening_catalog_config c })))

    -- The catalog without its style.
    unfoldable pub clear_style : OpeningCatalogConfig → OpeningCatalogConfig
    unfolding trim_space
    clear_style c = record c { keys = []; style_key = ""; key = trim_space c.key }

    unfoldable pub styled :
        List String → String → List String → OpeningCatalogConfig → OpeningCatalogConfig
    unfolding join_commas
    styled names t ts c = record c { keys = t ∷ ts; style_key = join_commas names; key = t }

    unfoldable pub store_styles :
        Registry → String → DifficultyPreset X → List String → List String → Edited
    unfolding unless put_preset validate_opening_catalog styled
    store_styles r n p names [] = refused (no_eco_entries names)
    store_styles r n p names (t ∷ ts) =
        unless (validate_opening_catalog beyond (styled names t ts p.opening_catalog)) (
          edited
            (put_preset r n (record p { opening_catalog = styled names t ts p.opening_catalog })))

    unfoldable pub use_collected : Registry → String → DifficultyPreset X → Collected → Edited
    unfolding store_styles normalize_catalog_tokens
    use_collected r n p (unknown t) = refused (unknown_style t)
    use_collected r n p (collected names raw) =
        store_styles r n p names (normalize_catalog_tokens beyond raw)

    unfoldable pub use_styles :
        Registry → String → DifficultyPreset X → List String → Styles → Edited
    unfolding use_collected collect_styles
    use_styles r n p tokens failed = refused styles_failed
    use_styles r n p tokens missing = refused styles_missing
    use_styles r n p tokens (loaded find) = use_collected r n p (collect_styles find tokens)

    unfoldable pub use_tokens :
        Registry → String → DifficultyPreset X → Styles → List String → Edited
    unfolding use_styles
    use_tokens r n p styles [] = refused style_required
    use_tokens r n p styles (t ∷ ts) = use_styles r n p (t ∷ ts) styles

    unfoldable pub set_preset_opening_style : Styles → Registry → String → String → Edited
    unfolding edit put_preset use_tokens clear_style parse_style_keys trim_space
    set_preset_opening_style styles r n style = edit r n λ p.
        if trim_space style == ""
        then edited (put_preset r n (record p { opening_catalog = clear_style p.opening_catalog }))
        else use_tokens r n p styles (parse_style_keys beyond (trim_space style))
