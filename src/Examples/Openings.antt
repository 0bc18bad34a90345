-- ===== src/Examples/Openings.antt =====
-- Book moves and the choice of candidates at concrete inputs.
use cheese_kakao_talk_bot.Prelude.{
  some, ℕ, ◌≤◌, ◌<◌, ◌≡◌, ◌≢◌, refl, [], ◌∷◌, true, false, arith, ap, ◌==◌, String,
}
use cheese_kakao_talk_bot.Presets.Types.{pos}
use cheese_kakao_talk_bot.Humanizer.Select.{Candidate, Draws, chosen, primary, select_candidate}
use cheese_kakao_talk_bot.Humanizer.Primary.{IsChoice, WhenChosen, select_candidate-IsChoice}
use cheese_kakao_talk_bot.Openings.{
  Entry, total_of, entry_at, select_catalog_move, catalog_candidates,
}
use cheese_kakao_talk_bot.Openings.Weights.{Holds, select_catalog_move-Holds}
use cheese_kakao_talk_bot.Openings.Forced.{SameMove, catalog_candidates-chosen}
use cheese_kakao_talk_bot.Examples.Chess.{same_char}
use cheese_kakao_talk_bot.Examples.Presets.{hundredths, level_one, level_one-valid}

abbrev sicilian : Entry
sicilian = record { move = "c7c5"; weight = 3 }

abbrev french : Entry
french = record { move = "e7e6"; weight = 2 }

-- A draw of 3.
abbrev three : ℕ → ℕ
three n = 3

abbrev half : Draws hundredths
half = record { fraction = 50; offset = 0 }

abbrev reply : String → Candidate
reply m = record { move = m; eval_cp = 10; principal = []; forced = false }

select_candidate-IsChoice_example :
    WhenChosen hundredths half
      (λ x. IsChoice x (reply "c7c5") (primary (pos 2) (reply "c7c5" ∷ reply "e7e6" ∷ [])))
      (select_candidate hundredths half same_char level_one (reply "c7c5" ∷ reply "e7e6" ∷ []))
select_candidate-IsChoice_example =
    select_candidate-IsChoice hundredths half same_char level_one (reply "c7c5") (reply "e7e6" ∷ [])

some_weight : 1 ≤ total_of (sicilian ∷ french ∷ [])
unfolding total_of
some_weight = omega arith

drawn_below : three (total_of (sicilian ∷ french ∷ [])) < total_of (sicilian ∷ french ∷ [])
unfolding total_of
drawn_below = omega arith

select_catalog_move-Holds_example :
    Holds 3 0 (sicilian ∷ french ∷ []) (select_catalog_move (some three) (sicilian ∷ french ∷ []))
select_catalog_move-Holds_example =
    select_catalog_move-Holds three sicilian (french ∷ []) some_weight drawn_below

french_named : (select_catalog_move (some three) (sicilian ∷ french ∷ [])).move ≢ ""
unfolding select_catalog_move entry_at total_of
french_named = λ e. let other : false ≡ true = ap (λ s. s == "") e in absurd (cc)

catalog_candidates-chosen_example :
    (x : Candidate) × (select_candidate hundredths half same_char level_one
        (catalog_candidates same_char (some three) (sicilian ∷ french ∷ []))
      ≡ chosen x)
    × SameMove same_char x.move (select_catalog_move (some three) (sicilian ∷ french ∷ [])).move
catalog_candidates-chosen_example =
    catalog_candidates-chosen same_char hundredths half same_char level_one 1 (some three)
      (sicilian ∷ french ∷ []) level_one-valid refl french_named
