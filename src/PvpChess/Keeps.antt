-- ===== src/PvpChess/Keeps.antt =====
-- Invariants through the functions of the PvP games: lookups keep every invariant and return only
-- what they test for; creation, moves and resignations keep one that their writes keep.
use Prim.Native.Char.{Char}
use cheese_kakao_talk_bot.Prelude.{
  String, ◌==◌, ◌||◌, Bool, true, ◌&&◌, ◌≡◌, refl, List, [], ◌∷◌, Option, none, some, inl, inr, ltb,
  All, Bool-cases,
}
use cheese_kakao_talk_bot.Text.{trim_space}
use cheese_kakao_talk_bot.Documents.{Game, Doc, game, as_game}
use cheese_kakao_talk_bot.Errors.{Result, ok, err}
use cheese_kakao_talk_bot.Redis.{Redis, text}
use cheese_kakao_talk_bot.Action.{run_all}
use cheese_kakao_talk_bot.Action.Ensures.{
  Ensures, Ensures-pure, Ensures-raise, Ensures-lift, Ensures-if, Ensures-exec, Ensures-bind,
  Ensures-attempt, Ensures-write_row, Post,
}
use cheese_kakao_talk_bot.Action.Commands.{
  Tame, Any, OptAll, Ensures-get, Ensures-get_doc, Ensures-smembers, Ensures-sadd, Ensures-expire,
}
use cheese_kakao_talk_bot.PvpChess.Games.{
  game_key, idx_user_key, is_active, in_room, insert_newest, sort_newest, first, keep_if, get,
  index_player, index_participants, collect, find_active, get_active_game_by_user, is_final,
  get_active_game_by_user_in_room, or_not_found, update_game, persist_if_final,
}

module _ (P : Game → Type 0) where
  insert_newest-All : (g : Game) (gs : List Game) → P g → All P gs → All P (insert_newest g gs)
  unfolding insert_newest
  insert_newest-All g [] h hs = (h, tt)
  insert_newest-All g (x ∷ xs) h hs = elim (Bool-cases (ltb g.updated_at x.updated_at)) [
    | inl e ↦ rw e (hs.0, insert_newest-All g xs h hs.1)
    | inr e ↦ rw e (h, hs)
  ]

  pub sort_newest-All : (gs : List Game) → All P gs → All P (sort_newest gs)
  unfolding sort_newest
  sort_newest-All [] hs = tt
  sort_newest-All (g ∷ gs) hs = insert_newest-All g (sort_newest gs) hs.0 (sort_newest-All gs hs.1)

  pub first-OptAll : (gs : List Game) → All P gs → OptAll P (first gs)
  first-OptAll [] hs = tt
  first-OptAll (g ∷ gs) hs = hs.0

abbrev pub Passes : (Game → Bool) → Game → Type 0
Passes test g = test g ≡ true

keep_if-All :
    (test : Game → Bool) (r : Result (Option Game)) (gs : List Game)
    → All (Passes test) gs
    → All (Passes test) (keep_if test r gs)
keep_if-All test (ok none) gs hs = hs
keep_if-All test (err e) gs hs = hs
keep_if-All test (ok (some g)) gs hs = elim (Bool-cases (test g)) [
  | inl e ↦ rw e (e, hs)
  | inr e ↦ rw e hs
]

-- Lookups keep every invariant.
module _ (R : Redis) (P : R.Db → Type 0) where
  pub Ensures-get_game : (id : String) → Ensures R P (get R id) Any
  unfolding get
  Ensures-get_game id =
      Ensures-bind _ _ (Ensures-get R P (game_key id)) (λ raw _. Ensures-pure _ tt)

  Ensures-collect :
      (test : Game → Bool) (ids : List String)
      → Ensures R P (collect R test ids) (All (Passes test))
  unfolding collect
  Ensures-collect test [] = Ensures-pure _ tt
  Ensures-collect test (id ∷ ids) =
      Ensures-bind _ _ (Ensures-attempt _ (Ensures-get_game id)) (λ r _.
        Ensures-bind _ _ (Ensures-collect test ids)
          (λ gs hs. Ensures-pure _ (keep_if-All test r gs hs)))

  abbrev pub ActiveAnd : (Game → Bool) → Game → Type 0
  ActiveAnd test = Passes (λ g. is_active g.status && test g)

  pub Ensures-find_active :
      (test : Game → Bool) (user : String)
      → Ensures R P (find_active R test user) (OptAll (ActiveAnd test))
  unfolding find_active
  Ensures-find_active test user =
      Ensures-bind _ _ (Ensures-smembers R P (idx_user_key user)) (λ ids _.
        Ensures-bind _ _ (Ensures-collect (λ g. is_active g.status && test g) ids) (λ gs hs.
          Ensures-pure _ (
            first-OptAll (ActiveAnd test) (sort_newest gs)
              (sort_newest-All (ActiveAnd test) gs hs))))

  pub Ensures-get_active_game_by_user :
      (user : String)
      → Ensures R P (get_active_game_by_user R user) (OptAll (ActiveAnd (λ _. true)))
  unfolding get_active_game_by_user
  Ensures-get_active_game_by_user user =
      Ensures-if (trim_space user == "") _ _ (λ _. Ensures-pure none tt)
        (λ _. Ensures-find_active (λ _. true) user)

  -- A game that this lookup returns is active and has the trimmed room as its first or second
  -- room, and the lookup keeps every invariant `P` that the other clients keep, whatever the
  -- faults of the network.
  pub Ensures-get_active_game_by_user_in_room :
      (user room : String)
      → Ensures R P
          (get_active_game_by_user_in_room R user room)
          (OptAll (ActiveAnd (in_room (trim_space room))))
  unfolding get_active_game_by_user_in_room
  Ensures-get_active_game_by_user_in_room user room =
      Ensures-if (trim_space user == "" || trim_space room == "") _ _ (λ _. Ensures-pure none tt)
        (λ _. Ensures-find_active (in_room (trim_space room)) (trim_space user))

  pub Ensures-persist_if_final :
      (beyond : Char → Char) (g : Game) (method : String)
      → Ensures R P (persist_if_final beyond R g method) Any
  unfolding persist_if_final
  Ensures-persist_if_final beyond g method =
      Ensures-if (is_final g.status) _ _ (λ _. Ensures-write_row _) (λ _. Ensures-pure tt tt)

  -- A transaction on a game keeps `P` if each write of a computed game does. Of the game that was
  -- read, `W` is known.
  module _ (W : Game → Type 0) (key : String) (f : Game → Result Game) where
    Ensures-or_not_found :
        (raw : Option Doc) → OptAll (λ x. W (as_game x)) raw → Ensures R P (or_not_found raw) W
    Ensures-or_not_found none h = Ensures-raise _
    Ensures-or_not_found (some x) h = Ensures-pure _ h

    Post-ok : (r : Result Game) → Post (λ g. r ≡ ok g) r
    Post-ok (ok g) = refl
    Post-ok (err e) = tt

    pub Ensures-update_game :
        ((d : R.Db) → P d → (x : Doc) → R.look d key ≡ some (text x) → W (as_game x))
        → ((cur next : Game)
            → W cur
            → f cur ≡ ok next
            → (d : R.Db) → P d
            → P (R.set key (game next) d).1)
        → Ensures R P (update_game R key f) Any
    unfolding update_game
    Ensures-update_game known keeps =
        Ensures-bind _ _ (Ensures-get_doc R P (λ x. W (as_game x)) key known) (λ raw h.
          Ensures-bind _ _ (Ensures-or_not_found raw h) (λ cur w.
            Ensures-bind _ _ (Ensures-lift (f cur) (Post-ok (f cur))) (λ next e.
              Ensures-bind _ _
                (Ensures-exec (R.set key (game next) ∷ [])
                  (unfold run_all in λ d p. keeps cur next w e d p))
                (λ _ _. Ensures-pure _ tt))))

-- Indexing the players.
module _ (R : Redis) (P : R.Db → Type 0) (t : Tame R P) where
  Ensures-index_player : (id user : String) → Ensures R P (index_player R id user) Any
  unfolding index_player
  Ensures-index_player id user =
      Ensures-if (trim_space user == "") _ _ (λ _. Ensures-pure tt tt)
        (λ _. Ensures-bind _ _ (Ensures-sadd R P t (idx_user_key user) id) (λ _ _.
          Ensures-bind _ _ (Ensures-attempt _ (Ensures-expire R P t (idx_user_key user)))
            (λ _ _. Ensures-pure _ tt)))

  pub Ensures-index_participants :
      (id white black : String) → Ensures R P (index_participants R id white black) Any
  unfolding index_participants
  Ensures-index_participants id white black =
      Ensures-bind _ _ (Ensures-index_player id white) (λ _ _. Ensures-index_player id black)
