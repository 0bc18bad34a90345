-- ===== src/Material/Accounts.antt =====
-- What the material score and the captured pieces of computeMaterial account for.
use cheese_kakao_talk_bot.Prelude.{ℕ, ◌+◌, ◌*◌, ◌≤◌, ◌≡◌, ◌≢◌, ◌<◌}
use cheese_kakao_talk_bot.ChessLib.{ChessLib, Side, Kind, pawn, knight, bishop, rook, queen, king}
use cheese_kakao_talk_bot.Material.{initial_count, material_base, squares, count_on}

-- The worth of some pieces of each kind; the king has none.
abbrev pub worth : (Kind → ℕ) → ℕ
worth n = n pawn * 1 + n knight * 3 + n bishop * 3 + n rook * 5 + n queen * 9

module _ (C : ChessLib) where
  -- The pieces of a side on the board
  abbrev pub standing : Side → C.Position → Kind → ℕ
  standing side p k = count_on C side k p squares

  -- What is said of a side: its total, and its pieces that the other side took.
  pub record Accounts (side : Side) (p : C.Position) (total : ℕ) (taken : Kind → ℕ) : Type 0 where
    pub is_worth : total ≡ worth (standing side p)
    pub none_lost : (k : Kind) → k ≢ king → initial_count k ≤ taken k + standing side p k
    pub is_exact :
        (k : Kind)
        → k ≢ king
        → standing side p k < initial_count k
        → taken k + standing side p k ≡ initial_count k
    pub covers : material_base ≤ total + worth taken
