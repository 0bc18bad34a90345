-- ===== src/Humanizer/Primary.antt =====
-- SelectCandidate (internal/chess/humanizer.go) chooses among the primary choices, and a forced one
-- before all others.
use Prim.Native.Char.{Char}
use cheese_kakao_talk_bot.Prelude.{
  ℕ, suc, ◌≡◌, refl, ◌⊎◌, inl, inr, true, List, [], ◌∷◌, Option, none, some, Bool-cases,
}
use cheese_kakao_talk_bot.Presets.Types.{pos, less, Floats, DifficultyPreset}
use cheese_kakao_talk_bot.Presets.Validate.{validate_preset, Failure}
use cheese_kakao_talk_bot.Humanizer.Select.{
  Candidate, Draws, Selected, chosen, no_candidates, weightless, weights_too_short, invalid,
  first_candidates, primary, first_forced, or_first, at_most_zero, pick, noisy, by_total, among,
  unless_invalid, select_candidate,
}

-- The candidate is of the list.
pub data Of (c : Candidate) : List Candidate → Type 0 where
  top : {cs : List Candidate} → Of c (c ∷ cs)
  below : {d : Candidate} {cs : List Candidate} → Of c cs → Of c (d ∷ cs)

-- One of the candidates, with another evaluation at most.
pub record IsChoice (x : Candidate) (first : Candidate) (cs : List Candidate) : Type 0 where
  pub from : Candidate
  pub listed : (from ≡ first) ⊎ Of from cs
  pub same_move : x.move ≡ from.move
  pub same_principal : x.principal ≡ from.principal
  pub same_forced : x.forced ≡ from.forced

module _ (X : Floats) (draws : Draws X) where
  noisy-same :
      (p : DifficultyPreset X) (c : Candidate)
      → ((noisy X draws p c).move ≡ c.move)
        × ((noisy X draws p c).forced ≡ c.forced)
        × ((noisy X draws p c).principal ≡ c.principal)
  unfolding noisy
  noisy-same p c = elim (Bool-cases (less (pos 0) p.eval_noise)) [
    | inl e ↦ rw e (refl, refl, refl)
    | inr e ↦ rw e (refl, refl, refl)
  ]

  noisy-IsChoice :
      (p : DifficultyPreset X) (c first : Candidate) (cs : List Candidate)
      → (c ≡ first) ⊎ Of c cs
      → IsChoice (noisy X draws p c) first cs
  noisy-IsChoice p c first cs h = record {
    from = c;
    listed = h;
    same_move = (noisy-same p c).0;
    same_forced = (noisy-same p c).1;
    same_principal = (noisy-same p c).2;
  }

  abbrev OfOption : Option Candidate → List Candidate → Type 0
  OfOption none cs = Unit
  OfOption (some c) cs = Of c cs

  below_too :
      (o : Option Candidate) (d : Candidate) (cs : List Candidate)
      → OfOption o cs
      → OfOption o (d ∷ cs)
  below_too none d cs h = tt
  below_too (some c) d cs h = below h

  pick-OfOption :
      (threshold : X.F) (cs : List Candidate) (ws : List X.F)
      → OfOption (pick X draws threshold cs ws) cs
  unfolding pick
  pick-OfOption threshold [] ws = tt
  pick-OfOption threshold (c ∷ cs) [] = tt
  pick-OfOption threshold (c ∷ cs) (w ∷ ws) =
      elim (Bool-cases (at_most_zero X draws (X.minus threshold w))) [
        | inl e ↦ rw e top
        | inr e ↦ rw e (
            below_too (pick X draws (X.minus threshold w) cs ws) c cs
              (pick-OfOption (X.minus threshold w) cs ws))
      ]

  first_forced-OfOption : (cs : List Candidate) → OfOption (first_forced cs) cs
  unfolding first_forced
  first_forced-OfOption [] = tt
  first_forced-OfOption (c ∷ cs) = elim (Bool-cases c.forced) [
    | inl e ↦ simp e top
    | inr e ↦ simp e (below_too (first_forced cs) c cs (first_forced-OfOption cs))
  ]

  -- What is chosen, if anything is, has the property.
  abbrev pub WhenChosen : (Candidate → Type 0) → Selected → Type 0
  WhenChosen W (chosen x) = W x
  WhenChosen W no_candidates = Unit
  WhenChosen W weightless = Unit
  WhenChosen W weights_too_short = Unit
  WhenChosen W (invalid e) = Unit

  or_first-IsChoice :
      (p : DifficultyPreset X) (first : Candidate) (cs : List Candidate) (o : Option Candidate)
      → OfOption o cs
      → IsChoice (noisy X draws p (or_first first o)) first cs
  or_first-IsChoice p first cs none h = noisy-IsChoice p first first cs (inl refl)
  or_first-IsChoice p first cs (some c) h = noisy-IsChoice p c first cs (inr h)

  by_total-IsChoice :
      (p : DifficultyPreset X) (first : Candidate) (cs : List Candidate) (o : Option X.F)
      → WhenChosen (λ x. IsChoice x first cs) (by_total X draws p first cs o)
  unfolding by_total
  by_total-IsChoice p first cs none = tt
  by_total-IsChoice p first cs (some total) = elim (Bool-cases (X.same total (X.decimal 0 0))) [
    | inl e ↦ rw e tt
    | inr e ↦ rw e (
        or_first-IsChoice p first cs
          (pick X draws (X.times draws.fraction total) cs p.candidate_weights)
          (pick-OfOption (X.times draws.fraction total) cs p.candidate_weights))
  ]

  among-IsChoice :
      (p : DifficultyPreset X) (first : Candidate) (cs : List Candidate) (o : Option Candidate)
      → OfOption o cs
      → WhenChosen (λ x. IsChoice x first cs) (among X draws p first cs o)
  unfolding among
  among-IsChoice p first cs (some c) h = noisy-IsChoice p c first cs (inr h)
  among-IsChoice p first cs none h = by_total-IsChoice p first cs _

  unless_invalid-WhenChosen :
      (W : Candidate → Type 0) (f : Failure) (s : Selected)
      → WhenChosen W s
      → WhenChosen W (unless_invalid X draws f s)
  unless_invalid-WhenChosen W (some e) s h = tt
  unless_invalid-WhenChosen W none s h = h

  -- Whatever is drawn, the candidate that SelectCandidate chooses is the first or one of the
  -- primary choices, with its move, its line and its mark; only the evaluation may differ.
  pub select_candidate-IsChoice :
      (beyond : Char → Char) (p : DifficultyPreset X) (c : Candidate) (cs : List Candidate)
      → WhenChosen
          (λ x. IsChoice x c (primary p.primary_choices (c ∷ cs)))
          (select_candidate X draws beyond p (c ∷ cs))
  unfolding select_candidate
  select_candidate-IsChoice beyond p c cs =
      let firsts = primary p.primary_choices (c ∷ cs) in
      unless_invalid-WhenChosen (λ x. IsChoice x c firsts) (validate_preset beyond X p) _
        (among-IsChoice p c firsts (first_forced firsts) (first_forced-OfOption firsts))

  -- With a valid preset of one primary choice or more, a first candidate that is forced is chosen.
  pub select_candidate-forced :
      (beyond : Char → Char) (p : DifficultyPreset X) (n : ℕ) (c : Candidate) (cs : List Candidate)
      → validate_preset beyond X p ≡ none
      → p.primary_choices ≡ pos (suc n)
      → c.forced ≡ true
      → (x : Candidate) × (select_candidate X draws beyond p (c ∷ cs) ≡ chosen x)
        × (x.move ≡ c.move)
  unfolding select_candidate first_forced first_candidates among
  select_candidate-forced beyond p n c cs v e f =
      (noisy X draws p c, rw (v, e, f) refl, (noisy-same p c).0)
