-- ===== src/Memrepo.antt =====
-- The in-memory repository of internal/service/chess/memrepo.go, over internal/domain/chess.go. A
-- map is an association list, the latest entry first; its mutex is held throughout each operation,
-- so that operations follow one another.
pub mod Recent
pub mod Laws
pub mod Order
use cheese_kakao_talk_bot.Prelude.{
  ℕ, ◌+◌, ◌%◌, ◌^◌, String, ◌⧺◌, ◌==◌, Bool, true, false, List, [], ◌∷◌, ◌++◌, Option, none, some,
  nat_eq, if◌then◌else◌,
}
use cheese_kakao_talk_bot.Text.{trim_space}
use cheese_kakao_talk_bot.Presets.Types.{ℤ}

-- Instants count nanoseconds; an id is the bits of an int64.
pub record ChessGame : Type 0 where
  pub id : ℕ
  pub session_uuid : String
  pub player_hash : String
  pub room_hash : String
  pub preset : String
  pub engine_preset : String
  pub result : String
  pub result_method : String
  pub moves_uci : List String
  pub moves_san : List String
  pub pgn : String
  pub started_at : ℕ
  pub ended_at : ℕ
  pub duration : ℤ
  pub blunders : ℤ
  pub engine_latency : ℤ

pub record ChessProfile : Type 0 where
  pub player_hash : String
  pub room_hash : String
  pub preferred_preset : String
  pub rating : ℤ
  pub games_played : ℤ
  pub wins : ℤ
  pub losses : ℤ
  pub draws : ℤ
  pub streak : ℤ
  pub streak_type : String
  pub last_preset : String
  pub last_played_at : ℕ
  pub updated_at : ℕ
  pub created_at : ℕ

module _ {K V : Type 0} (same : K → K → Bool) where
  unfoldable pub find : K → List (K × V) → Option V
  find k [] = none
  find k ((j, v) ∷ m) = let rest = find k m in if same j k then some v else rest

abbrev pub same_text : String → String → Bool
same_text a b = a == b

pub record Memrepo : Type 0 where
  pub next_id : ℕ
  pub games_by_id : List (ℕ × ChessGame)
  pub games_by_user : List (String × List ChessGame)
  pub games_by_index : List (String × ChessGame)
  pub profiles : List (String × ChessProfile)

abbrev pub new_memory_repository : Memrepo
new_memory_repository = record {
  next_id = 0;
  games_by_id = [];
  games_by_user = [];
  games_by_index = [];
  profiles = [];
}

unfoldable pub session_key : String → String → String
unfolding trim_space
session_key session player = trim_space session ⧺ ("|" ⧺ trim_space player)

unfoldable pub profile_key : String → String → String
unfolding trim_space
profile_key player room = trim_space player ⧺ ("|" ⧺ trim_space room)

abbrev pub listed : Option (List ChessGame) → List ChessGame
listed none = []
listed (some gs) = gs

-- What InsertGame answers: the new id, or ErrDuplicateGame.
pub data Inserted : Type 0 where
  inserted : ℕ → Inserted
  duplicate : Inserted

-- The entry of a game that is new, with its id.
unfoldable pub add_game : ℕ → String → ChessGame → Memrepo → Memrepo
unfolding find
add_game i key g m =
    let copy : ChessGame = record g { id = i } in
    record m {
      next_id = i;
      games_by_id = (i, copy) ∷ m.games_by_id;
      games_by_index = (key, copy) ∷ m.games_by_index;
      games_by_user =
          (g.player_hash, listed (find same_text g.player_hash m.games_by_user) ++ (copy ∷ []))
          ∷ m.games_by_user;
    }

abbrev pub insert_as : Option ChessGame → ChessGame → Memrepo → Inserted × Memrepo
insert_as (some _) g m = (duplicate, m)
insert_as none g m =
    let i = (m.next_id + 1) % 2 ^ 64 in
    (inserted i, add_game i (session_key g.session_uuid g.player_hash) g m)

-- InsertGame; a nil game is `none`.
unfoldable pub insert_game : Option ChessGame → Memrepo → Inserted × Memrepo
unfolding add_game session_key find
insert_game none m = (duplicate, m)
insert_game (some g) m =
    insert_as (find same_text (session_key g.session_uuid g.player_hash) m.games_by_index) g m

abbrev owned : String → Option ChessGame → Option ChessGame
owned player none = none
owned player (some g) = if g.player_hash == player then some g else none

unfoldable pub get_game : ℕ → String → Memrepo → Option ChessGame
unfolding find
get_game i player m = owned player (find nat_eq i m.games_by_id)

unfoldable pub get_game_by_session : String → String → Memrepo → Option ChessGame
unfolding find session_key
get_game_by_session session player m = find same_text (session_key session player) m.games_by_index

unfoldable pub get_profile : String → String → Memrepo → Option ChessProfile
unfolding find profile_key
get_profile player room m = find same_text (profile_key player room) m.profiles

-- UpsertProfile; a nil profile is `none`.
unfoldable pub upsert_profile : Option ChessProfile → Memrepo → Memrepo
unfolding profile_key
upsert_profile none m = m
upsert_profile (some p) m = record m {
  profiles = (profile_key p.player_hash p.room_hash, p) ∷ m.profiles;
}
