-- ===== src/Humanizer/Select.antt =====
-- SelectCandidate of internal/chess/humanizer.go. The random source is what it draws: a fraction
-- of the whole weight, and the noise of the evaluation.
use Prim.Native.Char.{Char}
use cheese_kakao_talk_bot.Prelude.{
  ℕ, zero, suc, String, Bool, ◌||◌, List, [], ◌∷◌, Option, none, some, if◌then◌else◌,
}
use cheese_kakao_talk_bot.Presets.Types.{
  ℤ, pos, negsuc, less, Floats, DifficultyPreset, PresetError,
}
use cheese_kakao_talk_bot.Presets.Validate.{Failure, validate_preset}
use cheese_kakao_talk_bot.Humanizer.{saturating_add}

-- An evaluation is the bits of an int.
pub record Candidate : Type 0 where
  pub move : String
  pub eval_cp : ℕ
  pub principal : List String
  pub forced : Bool

-- What is drawn: r.Float64(), and r.Intn(2n + 1) - n for the noise n.
pub record Draws (X : Floats) : Type 0 where
  pub fraction : X.F
  pub offset : ℕ

pub data Selected : Type 0 where
  chosen : Candidate → Selected
  no_candidates weightless weights_too_short : Selected
  invalid : PresetError → Selected

unfoldable pub first_candidates : ℕ → List Candidate → List Candidate
first_candidates zero cs = []
first_candidates (suc n) [] = []
first_candidates (suc n) (c ∷ cs) = c ∷ first_candidates n cs

-- candidates[:primaryLimit]
abbrev pub primary : ℤ → List Candidate → List Candidate
primary (pos n) cs = first_candidates n cs
primary (negsuc n) cs = []

unfoldable pub first_forced : List Candidate → Option Candidate
first_forced [] = none
first_forced (c ∷ cs) = let rest = first_forced cs in if c.forced then some c else rest

abbrev pub or_first : Candidate → Option Candidate → Candidate
or_first c none = c
or_first c (some d) = d

module _ (X : Floats) (draws : Draws X) where
  -- The weights of the candidates, added up; reading past the end panics.
  unfoldable pub total_weight : X.F → List Candidate → List X.F → Option X.F
  total_weight sum [] ws = some sum
  total_weight sum (c ∷ cs) [] = none
  total_weight sum (c ∷ cs) (w ∷ ws) = total_weight (X.plus sum w) cs ws

  abbrev pub at_most_zero : X.F → Bool
  at_most_zero x = X.below x (X.decimal 0 0) || X.same x (X.decimal 0 0)

  -- The loop that takes the weights off the threshold
  unfoldable pub pick : X.F → List Candidate → List X.F → Option Candidate
  pick threshold [] ws = none
  pick threshold (c ∷ cs) [] = none
  pick threshold (c ∷ cs) (w ∷ ws) =
      let rest = pick (X.minus threshold w) cs ws in
      if at_most_zero (X.minus threshold w) then some c else rest

  unfoldable pub noisy : DifficultyPreset X → Candidate → Candidate
  unfolding saturating_add
  noisy p c =
      if less (pos 0) p.eval_noise
      then record c { eval_cp = saturating_add c.eval_cp draws.offset }
      else c

  unfoldable pub by_total : DifficultyPreset X → Candidate → List Candidate → Option X.F → Selected
  unfolding pick noisy
  by_total p first cs none = weights_too_short
  by_total p first cs (some total) =
      let threshold = X.times draws.fraction total in
      if X.same total (X.decimal 0 0)
      then weightless
      else chosen (noisy p (or_first first (pick threshold cs p.candidate_weights)))

  unfoldable pub among :
      DifficultyPreset X → Candidate → List Candidate → Option Candidate → Selected
  unfolding by_total total_weight noisy
  among p first cs (some c) = chosen (noisy p c)
  among p first cs none = by_total p first cs (total_weight (X.decimal 0 0) cs p.candidate_weights)

  abbrev pub unless_invalid : Failure → Selected → Selected
  unless_invalid (some e) s = invalid e
  unless_invalid none s = s

  unfoldable pub select_candidate : (Char → Char) → DifficultyPreset X → List Candidate → Selected
  unfolding among first_forced first_candidates validate_preset
  select_candidate beyond p [] = no_candidates
  select_candidate beyond p (c ∷ cs) =
      let firsts = primary p.primary_choices (c ∷ cs) in
      unless_invalid (validate_preset beyond X p) (among p c firsts (first_forced firsts))
