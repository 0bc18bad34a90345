-- ===== src/Presets/Defaults.antt =====
-- The tables of internal/chess/preset.go: defaultOpeningPreferences and DefaultPresets.
use cheese_kakao_talk_bot.Prelude.{ℕ, String, Bool, true, false, List, [], ◌∷◌}
use cheese_kakao_talk_bot.Presets.Types.{
  pos, Floats, OpeningPreference, OpeningCatalogConfig, DifficultyPreset,
}

abbrev pub empty_catalog : OpeningCatalogConfig
empty_catalog = record {
  key = "";
  keys = [];
  color = "";
  max_ply = pos 0;
  min_weight = pos 0;
  style_key = "";
}

module _ (X : Floats) where
  -- An opening for black, whose multiplier is 2.0.
  abbrev opening : String → List String → List String → X.F → Bool → OpeningPreference X
  opening name whites blacks probability force = record {
    name = name;
    color = "black";
    white_moves = whites;
    black_moves = blacks;
    probability = probability;
    weight_multiplier = X.decimal 2 0;
    force = force;
  }

  abbrev pub default_opening_preferences : List (OpeningPreference X)
  default_opening_preferences =
      opening "sicilian-mainline" ("e2e4" ∷ "g1f3" ∷ "d2d4" ∷ "f3d4" ∷ [])
        ("c7c5" ∷ "d7d6" ∷ "c5d4" ∷ "g8f6" ∷ []) (X.decimal 45 2) true
      ∷ opening "sicilian-closed-variation" ("e2e4" ∷ "b1c3" ∷ "g1f3" ∷ [])
          ("c7c5" ∷ "g8f6" ∷ "d7d6" ∷ "e7e6" ∷ []) (X.decimal 5 2) false
      ∷ opening "berlin-mainline" ("e2e4" ∷ "g1f3" ∷ "f1b5" ∷ "e1g1" ∷ [])
          ("e7e5" ∷ "b8c6" ∷ "g8f6" ∷ "f8e7" ∷ []) (X.decimal 45 2) true
      ∷ opening "berlin-anti-variation" ("e2e4" ∷ "g1f3" ∷ "f1b5" ∷ "d2d3" ∷ [])
          ("e7e5" ∷ "b8c6" ∷ "g8f6" ∷ "a7a6" ∷ []) (X.decimal 5 2) false
      ∷ opening "grunfeld-mainline" ("d2d4" ∷ "c2c4" ∷ "b1c3" ∷ "g1f3" ∷ [])
          ("g8f6" ∷ "g7g6" ∷ "d7d5" ∷ "f8g7" ∷ []) (X.decimal 4 1) true
      ∷ opening "grunfeld-fianchetto" ("d2d4" ∷ "c2c4" ∷ "g2g3" ∷ [])
          ("g8f6" ∷ "g7g6" ∷ "d7d5" ∷ "c7c6" ∷ []) (X.decimal 1 1) false
      ∷ opening "kings-indian-classical" ("d2d4" ∷ "c2c4" ∷ "g1f3" ∷ "e2e4" ∷ [])
          ("g8f6" ∷ "g7g6" ∷ "f8g7" ∷ "d7d6" ∷ []) (X.decimal 4 1) true
      ∷ opening "kings-indian-fianchetto" ("d2d4" ∷ "c2c4" ∷ "g2g3" ∷ "g1f3" ∷ [])
          ("g8f6" ∷ "g7g6" ∷ "f8g7" ∷ "d7d6" ∷ []) (X.decimal 1 1) false
      ∷ opening "english-caro-structure" ("c2c4" ∷ "g1f3" ∷ "d2d4" ∷ [])
          ("c7c6" ∷ "d7d5" ∷ "g8f6" ∷ "e7e6" ∷ []) (X.decimal 7 1) true
      ∷ opening "english-caro-advance" ("c2c4" ∷ "d2d4" ∷ "c4d5" ∷ [])
          ("c7c6" ∷ "d7d5" ∷ "c6d5" ∷ "g8f6" ∷ []) (X.decimal 3 1) false
      ∷ opening "from-gambit-main" ("f2f4" ∷ "f4e5" ∷ "d2d4" ∷ "e2e4" ∷ [])
          ("e7e5" ∷ "d7d6" ∷ "d8h4" ∷ "g8f6" ∷ []) (X.decimal 7 1) true
      ∷ opening "from-gambit-decline" ("f2f4" ∷ "g2g3" ∷ "b1c3" ∷ [])
          ("e7e5" ∷ "d8h4" ∷ "g8f6" ∷ "f8c5" ∷ []) (X.decimal 3 1) false
      ∷ []

  -- A preset with no node cap and no opening catalog.
  abbrev level : String → ℕ → ℕ → ℕ → ℕ → ℕ → ℕ → ℕ → List X.F → ℕ → DifficultyPreset X
  level name skill threads hash time depth lines choices weights noise = record {
    name = name;
    skill_level = pos skill;
    threads = pos threads;
    hash_mb = pos hash;
    move_time_millis = pos time;
    node_cap = pos 0;
    depth_cap = pos depth;
    multi_pv = pos lines;
    primary_choices = pos choices;
    candidate_weights = weights;
    eval_noise = pos noise;
    opening_preferences = default_opening_preferences;
    opening_catalog = empty_catalog;
  }

  -- The presets by name. A map: each name stands once.
  abbrev pub default_presets : List (String × DifficultyPreset X)
  default_presets =
      (
        "level1",
        level "level1" 0 2 16 20 5 5 3 (X.decimal 5 1 ∷ X.decimal 3 1 ∷ X.decimal 2 1 ∷ []) 80,
      )
      ∷ (
        "level2",
        level "level2" 0 2 16 60 6 5 3 (X.decimal 6 1 ∷ X.decimal 3 1 ∷ X.decimal 1 1 ∷ []) 60,
      )
      ∷ (
        "level3",
        level "level3" 1 2 24 80 8 5 3 (X.decimal 7 1 ∷ X.decimal 2 1 ∷ X.decimal 1 1 ∷ []) 45,
      )
      ∷ (
        "level4",
        level "level4" 3 2 32 140 10 5 3 (X.decimal 65 2 ∷ X.decimal 25 2 ∷ X.decimal 1 1 ∷ []) 30,
      )
      ∷ (
        "level5",
        level "level5" 7 2 48 200 12 5 3 (X.decimal 7 1 ∷ X.decimal 2 1 ∷ X.decimal 1 1 ∷ []) 25,
      )
      ∷ ("level6", level "level6" 11 2 64 300 16 2 2 (X.decimal 8 1 ∷ X.decimal 2 1 ∷ []) 10)
      ∷ ("level7", level "level7" 16 2 96 500 20 2 2 (X.decimal 85 2 ∷ X.decimal 15 2 ∷ []) 5)
      ∷ ("level8", level "level8" 20 6 128 1000 30 1 1 (X.decimal 1 0 ∷ []) 0)
      ∷ []
