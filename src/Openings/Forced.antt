-- ===== src/Openings/Forced.antt =====
-- The move that is drawn from the catalog is the one that is played (tryOpeningMove and
-- applyPolyglotMove of internal/chess/engine.go with SelectCandidate of humanizer.go).
use Prim.Native.Char.{Char}
use cheese_kakao_talk_bot.Prelude.{
  Option, ℕ, suc, String, ◌==◌, ◌≡◌, ◌≢◌, refl, subst, sym, ◌∙◌, ap, ◌⊎◌, inl, inr, List, [], ◌∷◌,
  ◌++◌, true, none, Bool-cases, eq-false_of_ne,
}
use cheese_kakao_talk_bot.Text.{trim_space, equal_fold}
use cheese_kakao_talk_bot.Presets.Types.{pos, Floats, DifficultyPreset}
use cheese_kakao_talk_bot.Presets.Validate.{validate_preset}
use cheese_kakao_talk_bot.Humanizer.Select.{Candidate, Draws, chosen, select_candidate}
use cheese_kakao_talk_bot.Humanizer.Primary.{select_candidate-forced}
use cheese_kakao_talk_bot.Openings.{
  Entry, Split, absent, found, shift, find_candidate, force, put_first, first_eval,
  apply_polyglot_move, catalog_results_to_candidates, select_catalog_move, catalog_candidates,
}

module _ (orbit : Char → Char) where
  -- Two texts of one move, up to the case of letters and space around the first.
  abbrev pub SameMove : String → String → Type 0
  SameMove s m = (s ≡ m) ⊎ (equal_fold orbit (trim_space s) m ≡ true)

  -- What is found has the move.
  abbrev Named : String → Split → Type 0
  Named m absent = Unit
  Named m (found before x after) = equal_fold orbit (trim_space x.move) m ≡ true

  shift-Named : (m : String) (c : Candidate) (s : Split) → Named m s → Named m (shift c s)
  shift-Named m c absent h = tt
  shift-Named m c (found before x after) h = h

  find_candidate-Named : (cs : List Candidate) (m : String) → Named m (find_candidate orbit cs m)
  unfolding find_candidate
  find_candidate-Named [] m = tt
  find_candidate-Named (c ∷ cs) m = elim (Bool-cases (m == "")) [
    | inl e ↦ rw e tt
    | inr e ↦ elim (Bool-cases (equal_fold orbit (trim_space c.move) m)) [
      | inl f ↦ rw (e, f) f
      | inr f ↦ rw (e, f) (shift-Named m c (find_candidate orbit cs m) (find_candidate-Named cs m))
    ]
  ]

  -- The first candidate is forced and has the move.
  record Leader (m : String) (cs : List Candidate) : Type 0 where
    first : Candidate
    others : List Candidate
    starts : cs ≡ first ∷ others
    is_forced : first.forced ≡ true
    is_named : SameMove first.move m

  put_first-Leader :
      (cs : List Candidate) (m : String) (s : Split) → Named m s → Leader m (put_first orbit cs m s)
  put_first-Leader cs m absent h = record {
    first = record { move = m; eval_cp = first_eval orbit cs; principal = m ∷ []; forced = true };
    others = cs;
    starts = refl;
    is_forced = refl;
    is_named = inl refl;
  }
  put_first-Leader cs m (found [] x after) h = record {
    first = force orbit x;
    others = after;
    starts = refl;
    is_forced = refl;
    is_named = inr h;
  }
  put_first-Leader cs m (found (c ∷ before) x after) h = record {
    first = force orbit x;
    others = before ++ (c ∷ []) ++ after;
    starts = refl;
    is_forced = refl;
    is_named = inr h;
  }

  apply_polyglot_move-Leader :
      (cs : List Candidate) (m : String) → m ≢ "" → Leader m (apply_polyglot_move orbit cs m)
  unfolding apply_polyglot_move
  apply_polyglot_move-Leader cs m ne =
      rw (eq-false_of_ne m "" ne)
        (put_first-Leader cs m (find_candidate orbit cs m) (find_candidate-Named cs m))

  module _ (X : Floats) (draws : Draws X) where
    Leader-chosen :
        (beyond : Char → Char) (p : DifficultyPreset X) (n : ℕ) (cs : List Candidate) (m : String)
        → validate_preset beyond X p ≡ none
        → p.primary_choices ≡ pos (suc n)
        → Leader m cs
        → (x : Candidate) × (select_candidate X draws beyond p cs ≡ chosen x) × SameMove x.move m
    Leader-chosen beyond p n cs m v e l =
        let (x, h, k) =
          select_candidate-forced X draws beyond p n l.first l.others v e l.is_forced in
        (
          x,
          ap (select_candidate X draws beyond p) l.starts ∙ h,
          subst (λ s. SameMove s m) (sym k) l.is_named,
        )

    -- With a valid preset of one primary choice or more, the engine plays the move that was drawn
    -- from the catalog, whatever else is drawn, if the drawn entry has a move.
    pub catalog_candidates-chosen :
        (beyond : Char → Char) (p : DifficultyPreset X) (n : ℕ) (source : Option (ℕ → ℕ))
        (es : List Entry)
        → validate_preset beyond X p ≡ none
        → p.primary_choices ≡ pos (suc n)
        → (select_catalog_move source es).move ≢ ""
        → (x : Candidate) × (select_candidate X draws beyond p (catalog_candidates orbit source es)
            ≡ chosen x)
          × SameMove x.move (select_catalog_move source es).move
    unfolding catalog_candidates
    catalog_candidates-chosen beyond p n source es v e ne =
        Leader-chosen beyond p n _ (select_catalog_move source es).move v e (
          apply_polyglot_move-Leader (catalog_results_to_candidates es)
            (select_catalog_move source es).move ne)
