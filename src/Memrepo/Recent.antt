-- ===== src/Memrepo/Recent.antt =====
-- GetRecentGames (internal/service/chess/memrepo.go): the latest games of a player first.
use cheese_kakao_talk_bot.Prelude.{
  ℕ, zero, suc, ◌+◌, ◌%◌, ◌^◌, String, Bool, ◌&&◌, ◌||◌, List, [], ◌∷◌, ltb, nat_eq, length,
  if◌then◌else◌,
}
use cheese_kakao_talk_bot.Memrepo.{ChessGame, Memrepo, find, same_text, listed}

-- a < b for the bits of two int64
abbrev pub signed_less : ℕ → ℕ → Bool
signed_less a b = ltb ((a + 2 ^ 63) % 2 ^ 64) ((b + 2 ^ 63) % 2 ^ 64)

-- The order of sort.Slice: by the end, then by the id, the greater first.
abbrev pub comes_before : ChessGame → ChessGame → Bool
comes_before g h =
    ltb h.ended_at g.ended_at || nat_eq g.ended_at h.ended_at && signed_less h.id g.id

unfoldable pub insert_recent : ChessGame → List ChessGame → List ChessGame
insert_recent g [] = g ∷ []
insert_recent g (h ∷ hs) =
    let later = insert_recent g hs in if comes_before h g then h ∷ later else g ∷ h ∷ hs

unfoldable pub sort_recent : List ChessGame → List ChessGame
unfolding insert_recent
sort_recent [] = []
sort_recent (g ∷ gs) = insert_recent g (sort_recent gs)

abbrev pub first_games : ℕ → List ChessGame → List ChessGame
first_games zero gs = []
first_games (suc n) [] = []
first_games (suc n) (g ∷ gs) = g ∷ first_games n gs

-- `limit` is at least 0; 0 stands for every limit that is not positive.
unfoldable pub get_recent_games : String → ℕ → Memrepo → List ChessGame
unfolding find sort_recent
get_recent_games player limit m =
    let items = sort_recent (listed (find same_text player m.games_by_user)) in
    if ltb 0 limit && ltb limit (length items) then first_games limit items else items
