-- ===== src/Presets/Types.antt =====
-- The types of internal/chess/preset.go and of the opening styles it reads. A Go `int` is an
-- integer; a `float64` is a value of `Floats`, the arithmetic of the machine, which is abstract.
use cheese_kakao_talk_bot.Prelude.{ℕ, String, Bool, true, false, List, ltb, leb}

pub data ℤ : Type 0 where
  pos : ℕ → ℤ
  negsuc : ℕ → ℤ

abbrev pub is_neg : ℤ → Bool
is_neg (pos n) = false
is_neg (negsuc n) = true

-- a < b
abbrev pub less : ℤ → ℤ → Bool
less (pos m) (pos n) = ltb m n
less (pos m) (negsuc n) = false
less (negsuc m) (pos n) = true
less (negsuc m) (negsuc n) = ltb n m

-- a ≤ 0
abbrev pub is_nonpos : ℤ → Bool
is_nonpos (pos n) = leb n 0
is_nonpos (negsuc n) = true

-- `decimal 45 2` is the literal 0.45.
pub record Floats : Type 1 where
  pub F : Type 0
  pub decimal : ℕ → ℕ → F
  pub plus : F → F → F
  pub minus : F → F → F
  pub times : F → F → F
  pub below : F → F → Bool
  pub same : F → F → Bool
  pub is_nan : F → Bool
  pub is_inf : F → Bool

module _ (X : Floats) where
  pub record OpeningPreference : Type 0 where
    pub name : String
    pub color : String
    pub white_moves : List String
    pub black_moves : List String
    pub probability : X.F
    pub weight_multiplier : X.F
    pub force : Bool

pub record OpeningCatalogConfig : Type 0 where
  pub key : String
  pub keys : List String
  pub color : String
  pub max_ply : ℤ
  pub min_weight : ℤ
  pub style_key : String

module _ (X : Floats) where
  pub record DifficultyPreset : Type 0 where
    pub name : String
    pub skill_level : ℤ
    pub threads : ℤ
    pub hash_mb : ℤ
    pub move_time_millis : ℤ
    pub node_cap : ℤ
    pub depth_cap : ℤ
    pub multi_pv : ℤ
    pub primary_choices : ℤ
    pub candidate_weights : List X.F
    pub eval_noise : ℤ
    pub opening_preferences : List (OpeningPreference X)
    pub opening_catalog : OpeningCatalogConfig

-- The errors of the package, with what their texts name.
pub data PresetError : Type 0 where
  unknown_preset : String → PresetError
  out_of_range : String → ℤ → PresetError
  too_many_choices : ℤ → ℤ → PresetError
  no_weights : PresetError
  too_few_weights : ℕ → ℤ → PresetError
  negative_weight : ℕ → PresetError
  weights_sum_to_zero : PresetError
  index_out_of_range : PresetError
  name_required : PresetError
  no_white_moves : String → PresetError
  no_black_moves : String → PresetError
  black_only : String → PresetError
  bad_probability : String → PresetError
  bad_multiplier : String → PresetError
  empty_white_move : String → ℕ → PresetError
  empty_black_move : String → ℕ → PresetError
  style_without_entries : PresetError
  bad_color : String → PresetError
  empty_key : ℕ → PresetError
  duplicate_key : String → PresetError
  style_required : PresetError
  styles_failed : PresetError
  styles_missing : PresetError
  unknown_style : String → PresetError
  no_eco_entries : List String → PresetError
  no_limits : String → PresetError
