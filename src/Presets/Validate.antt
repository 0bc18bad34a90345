-- ===== src/Presets/Validate.antt =====
-- The validation of internal/chess/preset.go.
use Prim.Native.Char.{Char}
use cheese_kakao_talk_bot.Prelude.{
  ℕ, zero, suc, ◌+◌, String, Bool, true, false, ◌&&◌, ◌||◌, not, ◌==◌, List, [], ◌∷◌, Option, none,
  some, length, contains, if◌then◌else◌,
}
use cheese_kakao_talk_bot.Text.{trim_space, to_lower}
use cheese_kakao_talk_bot.Presets.Types.{
  ℤ, pos, negsuc, is_neg, is_nonpos, less, Floats, OpeningPreference, OpeningCatalogConfig,
  DifficultyPreset, PresetError, out_of_range, too_many_choices, no_weights, too_few_weights,
  negative_weight, weights_sum_to_zero, index_out_of_range, name_required, no_white_moves,
  no_black_moves, black_only, bad_probability, bad_multiplier, empty_white_move, empty_black_move,
  style_without_entries, bad_color, empty_key, duplicate_key,
}

abbrev pub Failure : Type 0
Failure = Option PresetError

-- `if err := f(); err != nil { return err }` and what follows it
infixr 5 ◌then◌
unfoldable pub ◌then◌ : Failure → Failure → Failure
none then f = f
some e then f = some e

-- `if c { return e }`
unfoldable pub check : Bool → PresetError → Failure
check true e = some e
check false e = none

abbrev pub is_empty {ℓ} : {A : Type ℓ} → List A → Bool
is_empty [] = true
is_empty (x ∷ xs) = false

-- The loop over moves that must not be blank.
unfoldable pub first_blank : (ℕ → PresetError) → ℕ → List String → Failure
unfolding trim_space
first_blank e i [] = none
first_blank e i (m ∷ ms) = check (trim_space m == "") (e i) then first_blank e (i + 1) ms

abbrev or_black : String → String
or_black c = if c == "" then "black" else c

module _ (beyond : Char → Char) where
  abbrev pub catalog_color : OpeningCatalogConfig → String
  catalog_color c = or_black (to_lower beyond (trim_space c.color))

  -- The loop over the keys; `seen` are the keys of its map.
  unfoldable pub check_keys : ℕ → List String → List String → Failure
  unfolding trim_space to_lower
  check_keys i seen [] = none
  check_keys i seen (t ∷ ts) =
      check (trim_space t == "") (empty_key i)
      then check (contains seen (to_lower beyond (trim_space t))) (duplicate_key (trim_space t))
      then check_keys (i + 1) (to_lower beyond (trim_space t) ∷ seen) ts

  abbrev pub check_bounds : OpeningCatalogConfig → Failure
  check_bounds c =
      check (is_neg c.max_ply) (out_of_range "opening catalog max ply" c.max_ply)
      then check (is_neg c.min_weight) (out_of_range "opening catalog min weight" c.min_weight)

  abbrev pub is_known_color : String → Bool
  is_known_color s = s == "black" || s == "white" || s == "both"

  unfoldable pub validate_opening_catalog : OpeningCatalogConfig → Failure
  unfolding check_keys
  validate_opening_catalog c =
      if is_empty c.keys && (trim_space c.key == "")
      then check (not (c.style_key == "")) style_without_entries
      then check_bounds c
      else check_bounds c
        then check (not (is_known_color (catalog_color c))) (bad_color c.color)
        then check_keys 0 [] c.keys
        then check (not (c.style_key == "") && is_empty c.keys) style_without_entries

  module _ (X : Floats) where
    abbrev at_most_zero : X.F → Bool
    at_most_zero x = X.below x (X.decimal 0 0) || X.same x (X.decimal 0 0)

    unfoldable pub validate_opening_preference : OpeningPreference X → Failure
    unfolding first_blank
    validate_opening_preference p =
        let name = trim_space p.name in
        check (name == "") name_required
        then check (is_empty p.white_moves) (no_white_moves name)
        then check (is_empty p.black_moves) (no_black_moves name)
        then check (not (or_black (to_lower beyond (trim_space p.color)) == "black"))
            (black_only name)
        then check (at_most_zero p.probability || X.below (X.decimal 1 0) p.probability)
            (bad_probability name)
        then check
            (at_most_zero p.weight_multiplier
              || X.is_nan p.weight_multiplier
              || X.is_inf p.weight_multiplier)
            (bad_multiplier name)
        then first_blank (empty_white_move name) 0 p.white_moves
        then first_blank (empty_black_move name) 0 p.black_moves

    unfoldable pub validate_opening_preferences : List (OpeningPreference X) → Failure
    unfolding validate_opening_preference
    validate_opening_preferences [] = none
    validate_opening_preferences (p ∷ ps) =
        validate_opening_preference p then validate_opening_preferences ps

    -- The loop that adds up the first weights; reading past the end panics.
    unfoldable pub check_weights : ℕ → ℕ → List X.F → X.F → Failure
    check_weights zero i ws sum = check (X.same sum (X.decimal 0 0)) weights_sum_to_zero
    check_weights (suc n) i [] sum = some index_out_of_range
    check_weights (suc n) i (w ∷ ws) sum =
        check (X.below w (X.decimal 0 0)) (negative_weight i)
        then check_weights n (i + 1) ws (X.plus sum w)

    -- The rounds of a loop `for i := 0; i < n; i++`.
    abbrev pub rounds : ℤ → ℕ
    rounds (pos n) = n
    rounds (negsuc n) = 0

    -- The cases of the `switch`.
    unfoldable pub check_numbers : DifficultyPreset X → Failure
    check_numbers p =
        check (is_neg p.skill_level || less (pos 20) p.skill_level)
          (out_of_range "skill level" p.skill_level)
        then check (is_nonpos p.threads) (out_of_range "threads" p.threads)
        then check (is_nonpos p.hash_mb) (out_of_range "hash size" p.hash_mb)
        then check (is_nonpos p.multi_pv) (out_of_range "multipv" p.multi_pv)
        then check (is_nonpos p.primary_choices) (out_of_range "primary choices" p.primary_choices)
        then check (less p.multi_pv p.primary_choices)
            (too_many_choices p.primary_choices p.multi_pv)
        then check (is_empty p.candidate_weights) no_weights
        then check (less (pos (length p.candidate_weights)) p.primary_choices)
            (too_few_weights (length p.candidate_weights) p.primary_choices)

    unfoldable pub check_limits : DifficultyPreset X → Failure
    check_limits p =
        check (is_neg p.move_time_millis) (out_of_range "move time" p.move_time_millis)
        then check (is_neg p.node_cap) (out_of_range "node cap" p.node_cap)
        then check (is_neg p.depth_cap) (out_of_range "depth cap" p.depth_cap)
        then check (is_neg p.eval_noise) (out_of_range "eval noise" p.eval_noise)

    unfoldable pub validate_preset : DifficultyPreset X → Failure
    unfolding check_numbers check_weights check_limits
    validate_preset p =
        check_numbers p
        then check_weights (rounds p.primary_choices) 0 p.candidate_weights (X.decimal 0 0)
        then check_limits p
        then validate_opening_preferences p.opening_preferences
        then validate_opening_catalog p.opening_catalog
