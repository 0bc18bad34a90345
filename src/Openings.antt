-- ===== src/Openings.antt =====
-- Book moves of internal/chess/engine.go: catalogTokens, catalogResultsToCandidates,
-- findCandidateIndex, selectCatalogMove, applyPolyglotMove, and the branch of tryOpeningMove that
-- plays from the catalog.
pub mod Weights
pub mod Forced
use Prim.Native.Char.{Char}
use cheese_kakao_talk_bot.Prelude.{
  ℕ, zero, suc, ◌+◌, String, ◌==◌, Bool, true, false, not, ◌||◌, List, [], ◌∷◌, ◌++◌, Option, none,
  some, leb, ltb, if◌then◌else◌, length,
}
use cheese_kakao_talk_bot.Text.{trim_space, to_lower, equal_fold}
use cheese_kakao_talk_bot.Presets.Types.{OpeningCatalogConfig}
use cheese_kakao_talk_bot.Humanizer.Select.{Candidate}

-- openingbook.Result; a weight has 16 bits.
pub record Entry : Type 0 where
  pub move : String
  pub weight : ℕ

abbrev tokens_of : List String → String → List String
tokens_of (k ∷ ks) key = k ∷ ks
tokens_of [] key = if key == "" then [] else key ∷ []

unfoldable pub catalog_tokens : OpeningCatalogConfig → List String
unfolding trim_space
catalog_tokens c = tokens_of c.keys (trim_space c.key)

-- The candidate of an entry of the catalog
abbrev pub candidate_of : String → Candidate
candidate_of m = record { move = m; eval_cp = 0; principal = m ∷ []; forced = false }

unfoldable pub catalog_results_to_candidates : List Entry → List Candidate
unfolding trim_space
catalog_results_to_candidates [] = []
catalog_results_to_candidates (e ∷ es) =
    let rest = catalog_results_to_candidates es in
    if trim_space e.move == "" then rest else candidate_of (trim_space e.move) ∷ rest

unfoldable pub total_of : List Entry → ℕ
total_of [] = 0
total_of (e ∷ es) = e.weight + total_of es

abbrev pub last_of : Entry → List Entry → Entry
last_of e [] = e
last_of e (f ∷ fs) = last_of f fs

-- The loop of selectCatalogMove, with the weights so far; `first` is the entry before the rest.
unfoldable pub entry_at : ℕ → ℕ → Entry → List Entry → Entry
entry_at roll sum e [] = e
entry_at roll sum e (f ∷ fs) =
    let rest = entry_at roll (sum + e.weight) f fs in if ltb roll (sum + e.weight) then e else rest

abbrev pub no_entry : Entry
no_entry = record { move = ""; weight = 0 }

-- `draw` is r.Intn, of a random source that may be nil.
unfoldable pub select_catalog_move : Option (ℕ → ℕ) → List Entry → Entry
unfolding entry_at total_of
select_catalog_move source [] = no_entry
select_catalog_move none (e ∷ es) = e
select_catalog_move (some draw) (e ∷ es) =
    let total = total_of (e ∷ es) in if leb total 0 then e else entry_at (draw total) 0 e es

-- The candidates before the first that has the move, it, and those after it.
pub data Split : Type 0 where
  absent : Split
  found : List Candidate → Candidate → List Candidate → Split

abbrev pub shift : Candidate → Split → Split
shift c absent = absent
shift c (found before x after) = found (c ∷ before) x after

module _ (orbit : Char → Char) where
  -- findCandidateIndex, with the candidates around the index
  unfoldable pub find_candidate : List Candidate → String → Split
  unfolding equal_fold trim_space
  find_candidate [] m = absent
  find_candidate (c ∷ cs) m =
      let rest = shift c (find_candidate cs m) in
      if m == ""
      then absent
      else if equal_fold orbit (trim_space c.move) m
      then found [] c cs
      else rest

  abbrev pub first_eval : List Candidate → ℕ
  first_eval [] = 0
  first_eval (c ∷ cs) = c.eval_cp

  abbrev pub force : Candidate → Candidate
  force c = record c { forced = true }

  -- The found candidate is swapped with the first one.
  abbrev pub put_first : List Candidate → String → Split → List Candidate
  put_first cs m absent =
      record { move = m; eval_cp = first_eval cs; principal = m ∷ []; forced = true } ∷ cs
  put_first cs m (found [] x after) = force x ∷ after
  put_first cs m (found (c ∷ before) x after) = force x ∷ before ++ (c ∷ []) ++ after

  unfoldable pub apply_polyglot_move : List Candidate → String → List Candidate
  unfolding find_candidate
  apply_polyglot_move cs m = if m == "" then cs else put_first cs m (find_candidate cs m)

  -- The candidates that tryOpeningMove hands to SelectCandidate for moves of the catalog
  unfoldable pub catalog_candidates : Option (ℕ → ℕ) → List Entry → List Candidate
  unfolding apply_polyglot_move select_catalog_move catalog_results_to_candidates
  catalog_candidates source es =
      apply_polyglot_move (catalog_results_to_candidates es) (select_catalog_move source es).move

-- splitMovesByColor: the moves of White and those of Black
unfoldable pub split_moves_by_color : List String → List String × List String
split_moves_by_color [] = ([], [])
split_moves_by_color (m ∷ ms) = let (white, black) = split_moves_by_color ms in (m ∷ black, white)
