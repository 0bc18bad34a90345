-- ===== src/Memrepo/Laws.antt =====
-- What the in-memory repository (internal/service/chess/memrepo.go) gives back of what was put in.
use cheese_kakao_talk_bot.Prelude.{
  ℕ, ◌+◌, ◌%◌, ◌^◌, String, ◌==◌, ◌≡◌, refl, sym, ap, ◌∙◌, true, Option, none, some, inl, inr,
  arith, nat_eq, eq_refl, eq_iff, Option-cases, Bool-cases,
}
use cheese_kakao_talk_bot.Memrepo.{
  ChessGame, Memrepo, find, same_text, session_key, inserted, duplicate, add_game, insert_game,
  insert_as, get_game, get_game_by_session,
}

abbrev with_id : ℕ → ChessGame → ChessGame
with_id i g = record g { id = i }

nat_eq_refl : (n : ℕ) → nat_eq n n ≡ true
nat_eq_refl n = ground arith

-- The session and the id find what was added.
module _ (i : ℕ) (g : ChessGame) (m : Memrepo) where
  abbrev after : Memrepo
  after = add_game i (session_key g.session_uuid g.player_hash) g m

  add_game-get_game : get_game i g.player_hash after ≡ some (with_id i g)
  unfolding get_game add_game find
  add_game-get_game = rw (nat_eq_refl i, eq_refl g.player_hash) refl

  add_game-by_session : get_game_by_session g.session_uuid g.player_hash after ≡ some (with_id i g)
  unfolding get_game_by_session add_game find
  add_game-by_session = rw (eq_refl (session_key g.session_uuid g.player_hash)) refl

  add_game-again : insert_game (some g) after ≡ (duplicate, after)
  unfolding insert_game add_game find
  add_game-again = rw (eq_refl (session_key g.session_uuid g.player_hash)) refl

-- An insertion that succeeds has added the game under its id.
insert_as-inserted :
    (o : Option ChessGame) (g : ChessGame) (m m' : Memrepo) (i : ℕ)
    → insert_as o g m ≡ (inserted i, m')
    → m' ≡ add_game i (session_key g.session_uuid g.player_hash) g m
insert_as-inserted (some x) g m m' i h =
    let differ : duplicate ≡ inserted i = ap (λ p. p.0) h in absurd (cc)
insert_as-inserted none g m m' i h =
    let answer : inserted ((m.next_id + 1) % 2 ^ 64) ≡ inserted i = ap (λ p. p.0) h in
    let same : (m.next_id + 1) % 2 ^ 64 ≡ i = cc in
    sym (ap (λ p. p.1) h) ∙ ap (λ j. add_game j (session_key g.session_uuid g.player_hash) g m) same

insert_game-inserted :
    (g : ChessGame) (m m' : Memrepo) (i : ℕ)
    → insert_game (some g) m ≡ (inserted i, m')
    → m' ≡ add_game i (session_key g.session_uuid g.player_hash) g m
unfolding insert_game
insert_game-inserted g m m' i h =
    insert_as-inserted (find same_text (session_key g.session_uuid g.player_hash) m.games_by_index)
      g m m' i h

-- A game that InsertGame accepts is found by its id and by its session, for its player, with the
-- id that was answered; and inserting it again is refused and changes nothing.
pub insert_game-get :
    (g : ChessGame) (m m' : Memrepo) (i : ℕ)
    → insert_game (some g) m ≡ (inserted i, m')
    → (get_game i g.player_hash m' ≡ some (with_id i g))
      × (get_game_by_session g.session_uuid g.player_hash m' ≡ some (with_id i g))
      × (insert_game (some g) m' ≡ (duplicate, m'))
insert_game-get g m m' i h =
    rw (insert_game-inserted g m m' i h)
      (add_game-get_game i g m, add_game-by_session i g m, add_game-again i g m)

-- GetGame gives a game to its player alone.
pub get_game-owner :
    (i : ℕ) (player : String) (m : Memrepo) (g : ChessGame)
    → get_game i player m ≡ some g
    → g.player_hash ≡ player
unfolding get_game
get_game-owner i player m g h = elim (Option-cases (find nat_eq i m.games_by_id)) [
  | inl e ↦ absurd (ground (arith, e, h))
  | inr (x, e) ↦ elim (Bool-cases (x.player_hash == player)) [
    | inl f ↦ ground (arith, e, f, h, eq_iff x.player_hash player)
    | inr f ↦ absurd (ground (arith, e, f, h))
  ]
]
