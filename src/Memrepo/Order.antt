-- ===== src/Memrepo/Order.antt =====
-- GetRecentGames lists the latest games first (internal/service/chess/memrepo.go).
use cheese_kakao_talk_bot.Prelude.{
  ℕ, zero, suc, ◌≤◌, ◌≡◌, false, List, [], ◌∷◌, ◌++◌, ◌⊎◌, All, length,
}
use mathlib.Core.List.{Perm}
use mathlib.Core.List.Perm
use cheese_kakao_talk_bot.Memrepo.{ChessGame, Memrepo}
use cheese_kakao_talk_bot.Memrepo.Recent.{comes_before}

abbrev NotBefore : ChessGame → ChessGame → Type 0
NotBefore g h = comes_before h g ≡ false

-- No game stands before one that ended later, or at one instant with a greater id.
abbrev pub IsRecent : List ChessGame → Type 0
IsRecent [] = Unit
IsRecent (g ∷ gs) = All (NotBefore g) gs × IsRecent gs

abbrev left_out : ℕ → List ChessGame → List ChessGame
left_out zero gs = gs
left_out (suc n) [] = []
left_out (suc n) (g ∷ gs) = left_out n gs

-- The latest `n` of the stored games: in order, with the others after them, and fewer than `n` only
-- if there are no others.
pub record LatestOf (n : ℕ) (stored out : List ChessGame) : Type 0 where
  pub others : List ChessGame
  pub all : Perm (out ++ others) stored
  pub ordered : IsRecent (out ++ others)
  pub bounded : length out ≤ n
  pub full : (others ≡ []) ⊎ (length out ≡ n)
