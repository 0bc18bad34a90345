-- ===== src/Service/Once.antt =====
-- A finished game is counted once (persistFinishedGame of internal/service/chess/service.go).
use cheese_kakao_talk_bot.Prelude.{ℕ, ◌≡◌, refl, ◌∙◌, ap, true, Option, some}
use cheese_kakao_talk_bot.Presets.Types.{pos}
use cheese_kakao_talk_bot.Memrepo.{
  ChessGame, Memrepo, Inserted, duplicate, insert_game, get_game_by_session,
}
use cheese_kakao_talk_bot.Service.Types.{
  SessionIdentity, SessionPayload, EvaluateResult, duplicate_game,
}
use cheese_kakao_talk_bot.Service.State.{Result, ok, err, Data, Store}
use cheese_kakao_talk_bot.Service.Environment.{Environment}
use cheese_kakao_talk_bot.Service.Finish.{
  Persisted, game_record, insert_record, look_up_record, known_before, recorded_game, after_insert,
  persist_finished_game,
}
use cheese_kakao_talk_bot.Service.Triples.{all_faults, Post, Both, Fault}
use cheese_kakao_talk_bot.Service.Keeping.{
  Keeps, OfOk, Any, Keeps-pure, Keeps-raise, Keeps-call, Keeps-attempt, Keeps-then,
}
use cheese_kakao_talk_bot.Service.Steps.{Reads, Keeps-fetch_optional}
use cheese_kakao_talk_bot.Service.Turns.{All-Any}

-- The repository is that of before.
pub record SameRepo (E : Environment) (r0 : Memrepo) (d : Data E.floats) : Type 0 where
  pub same : d.repo ≡ r0

SameRepo-Reads : (E : Environment) (r0 : Memrepo) → Reads E (SameRepo E r0) Any
SameRepo-Reads E r0 = record {
  cached = λ d q k p e. tt;
  stored = λ d q. All-Any d.repo.profiles;
  put_cached = λ d k p w q. record { same = q.same };
}

-- The answer for a game that was recorded as `x`: its id, and no change of the rating.
abbrev pub AsRecorded : ChessGame → Persisted → Type 0
AsRecorded x done = (done.0 ≡ x.id) × (done.2 ≡ pos 0)

module _ (E : Environment) (now : ℕ) (id : SessionIdentity) (p : SessionPayload) (g : E.chess.Play)
    (r0 : Memrepo) (x : ChessGame)
    (recorded : get_game_by_session p.session_uuid id.player_hash r0 ≡ some x) where
  insert_again :
      (rec : ChessGame)
      → rec.session_uuid ≡ p.session_uuid
      → rec.player_hash ≡ id.player_hash
      → insert_game (some rec) r0 ≡ (duplicate, r0)
  unfolding insert_game get_game_by_session
  insert_again rec hs hp = rw (hs, hp, recorded) refl

  Keeps-insert_again :
      (r : EvaluateResult)
      → Keeps Fault
          (SameRepo E r0)
          (insert_record E now id p g (game_record E now id p g r))
          (λ i. i ≡ duplicate)
  unfolding insert_record game_record
  Keeps-insert_again r = Keeps-call _ λ d q.
      let e =
        ap (λ m. insert_game (some (game_record E now id p g r)) m) q.same
        ∙ insert_again (game_record E now id p g r) refl refl in
      (record { same = ap (λ a. a.1) e }, ap (λ a. a.0) e)

  known_before-AsRecorded :
      Keeps Fault (SameRepo E r0) (known_before E now id p g (some x)) (AsRecorded x)
  unfolding known_before
  known_before-AsRecorded =
      Keeps-then _ _ (Keeps-fetch_optional E Fault (SameRepo-Reads E r0) id true)
        (λ k h. Keeps-pure _ (refl, refl))

  looked_up :
      (r : Result (Option ChessGame))
      → OfOk (λ o. o ≡ some x) r
      → Keeps Fault
          (SameRepo E r0)
          (known_before E now id p g (recorded_game E now id p g r))
          (AsRecorded x)
  unfolding known_before
  looked_up (ok o) h = rw h known_before-AsRecorded
  looked_up (err e) h = Keeps-raise duplicate_game

  after_duplicate : Keeps Fault (SameRepo E r0) (after_insert E now id p g duplicate) (AsRecorded x)
  unfolding after_insert look_up_record
  after_duplicate =
      Keeps-then _ _
        (Keeps-attempt _ (
          Keeps-call {W = λ o. o ≡ some x} _ (λ d q.
            (q, ap (λ m. get_game_by_session p.session_uuid id.player_hash m) q.same ∙ recorded))))
        looked_up

  after_insert-AsRecorded :
      (i : Inserted)
      → i ≡ duplicate
      → Keeps Fault (SameRepo E r0) (after_insert E now id p g i) (AsRecorded x)
  after_insert-AsRecorded i h = rw h after_duplicate

  persisted_again :
      (r : EvaluateResult)
      → Keeps Fault (SameRepo E r0) (persist_finished_game E now id p g r) (AsRecorded x)
  unfolding persist_finished_game
  persisted_again r = Keeps-then _ _ (Keeps-insert_again r) after_insert-AsRecorded

-- If a game of the session is recorded, then finishing the session again, whatever faults of the
-- cache and the database happen, writes nothing to the repository, so that no profile is counted
-- again; and if it answers, then with the recorded game's id and no change of the rating.
pub persist_finished_game-once :
    (E : Environment) (now : ℕ) (id : SessionIdentity) (p : SessionPayload) (g : E.chess.Play)
    (r : EvaluateResult) (w : Store E.floats) (x : ChessGame)
    → get_game_by_session p.session_uuid id.player_hash w.content.repo ≡ some x
    → Post
        (Both (AsRecorded x) (SameRepo E w.content.repo))
        (SameRepo E w.content.repo)
        (persist_finished_game E now id p g r w).0
        (persist_finished_game E now id p g r w).1.content
persist_finished_game-once E now id p g r w x h =
    ((persisted_again E now id p g w.content.repo x h r).at w (all_faults w.fates)
      (record { same = refl })).1
