-- ===== src/PvpChess/Games.antt =====
-- Stored games: keys, save, get, indexParticipants, the lookups of a user's active game, and the
-- persisted result (internal/pvpchess/manager.go, repository.go).
use Prim.Native.Char.{Char}
use cheese_kakao_talk_bot.Prelude.{
  String, ◌⧺◌, Bool, true, false, ◌&&◌, ◌||◌, ◌==◌, List, [], ◌∷◌, Option, none, some, ltb,
  if◌then◌else◌,
}
use cheese_kakao_talk_bot.Text.{trim_space, to_lower}
use cheese_kakao_talk_bot.Documents.{Status, Game, Doc, game, as_game, Row}
use cheese_kakao_talk_bot.Errors.{Result, ok, err, game_not_found}
use cheese_kakao_talk_bot.Redis.{Redis}
use cheese_kakao_talk_bot.Action.{M, pure, raise, lift, attempt, call, exec, write_row, ◌>>=◌, ◌>>◌}

unfoldable pub game_key : String → String
game_key id = "pvp:game:" ⧺ trim_space id

unfoldable pub idx_user_key : String → String
idx_user_key user = "pvp:index:user:" ⧺ trim_space user

abbrev pub is_active : Status → Bool
is_active Status.active = true
is_active _ = false

unfoldable pub in_room : String → Game → Bool
in_room room g = g.origin_room == room || g.resolve_room == room

abbrev pub map_option : {A B : Type 0} → (A → B) → Option A → Option B
map_option f none = none
map_option f (some a) = some (f a)

-- `sort.Slice` by the latest update first. Among games of one instant the order is Go's own.
unfoldable pub insert_newest : Game → List Game → List Game
insert_newest g [] = g ∷ []
insert_newest g (x ∷ xs) =
    let later = insert_newest g xs in
    if ltb g.updated_at x.updated_at then x ∷ later else g ∷ x ∷ xs

unfoldable pub sort_newest : List Game → List Game
unfolding insert_newest
sort_newest [] = []
sort_newest (g ∷ gs) = insert_newest g (sort_newest gs)

abbrev pub first : List Game → Option Game
first [] = none
first (g ∷ gs) = some g

-- The games that were read and pass the test; a failed read and a missing game are skipped.
abbrev pub keep_if : (Game → Bool) → Result (Option Game) → List Game → List Game
keep_if test (ok (some g)) gs = if test g then g ∷ gs else gs
keep_if test (ok none) gs = gs
keep_if test (err e) gs = gs

abbrev pub or_not_found : {R : Redis} → Option Doc → M R Game
or_not_found none = raise game_not_found
or_not_found (some x) = pure (as_game x)

module _ (R : Redis) where
  unfoldable pub save : Game → M R (Unit {0})
  unfolding game_key
  save g = call (R.set (game_key g.id) (game g))

  unfoldable pub get : String → M R (Option Game)
  unfolding game_key
  get id = do raw ← call (R.get (game_key id)); pure (map_option as_game raw)

  unfoldable pub index_player : String → String → M R (Unit {0})
  unfolding idx_user_key
  index_player id user = if trim_space user == "" then pure tt else do
    call (R.sadd (idx_user_key user) id)
    attempt (call (R.expire (idx_user_key user)))
    pure tt

  unfoldable pub index_participants : String → String → String → M R (Unit {0})
  unfolding index_player
  index_participants id white black = index_player id white >> index_player id black

  -- The loop over the ids of a user.
  unfoldable pub collect : (Game → Bool) → List String → M R (List Game)
  unfolding get
  collect test [] = pure []
  collect test (id ∷ ids) = do r ← attempt (get id); gs ← collect test ids; pure (keep_if test r gs)

  unfoldable pub find_active : (Game → Bool) → String → M R (Option Game)
  unfolding collect idx_user_key sort_newest
  find_active test user = do
    ids ← call (R.smembers (idx_user_key user))
    gs ← collect (λ g. is_active g.status && test g) ids
    pure (first (sort_newest gs))

  unfoldable pub get_active_game_by_user : String → M R (Option Game)
  unfolding find_active
  get_active_game_by_user user =
      if trim_space user == "" then pure none else find_active (λ _. true) user

  unfoldable pub get_active_game_by_user_in_room : String → String → M R (Option Game)
  unfolding find_active in_room
  get_active_game_by_user_in_room user room =
      let u = trim_space user in
      let r = trim_space room in if u == "" || r == "" then pure none else find_active (in_room r) u

  -- The frame of the transactions on a game: read it under WATCH, compute, write it back.
  unfoldable pub update_game : String → (Game → Result Game) → M R Game
  update_game key f = do
    raw ← call (R.get key)
    cur ← or_not_found raw
    next ← lift (f cur)
    exec (R.set key (game next) ∷ [])
    pure next

-- The result token and the PGN result of SaveResult.
unfoldable pub result_token : Game → String
result_token g =
    let result = trim_space g.outcome in
    if result == "resign"
    then (if g.winner == g.white_id
        then "white"
        else if g.winner == g.black_id
        then "black"
        else "")
    else result

unfoldable pub map_result_to_pgn : (Char → Char) → String → String
map_result_to_pgn beyond result =
    let r = to_lower beyond (trim_space result) in
    if r == "white"
    then "1-0"
    else if r == "black"
    then "0-1"
    else if r == "draw"
    then "1/2-1/2"
    else "*"

unfoldable pub result_row : (Char → Char) → Game → String → Row
unfolding result_token map_result_to_pgn
result_row beyond g method = record {
  played = g;
  result = result_token g;
  pgn_result = map_result_to_pgn beyond (result_token g);
  method = trim_space method;
}

abbrev pub is_final : Status → Bool
is_final Status.finished = true
is_final Status.resigned = true
is_final Status.draw = true
is_final _ = false

-- persistIfFinal, with a repository attached; its callers drop the database's error.
unfoldable pub persist_if_final : (Char → Char) → (R : Redis) → Game → String → M R (Unit {0})
unfolding result_row
persist_if_final beyond R g method =
    if is_final g.status then write_row (result_row beyond g method) else pure tt
