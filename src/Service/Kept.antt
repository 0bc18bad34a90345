-- ===== src/Service/Kept.antt =====
-- The calls of the single-player service that play and end a game keep its data sane
-- (persistFinishedGame, finishIfNeeded and Play of internal/service/chess/service.go).
use cheese_kakao_talk_bot.Prelude.{ℕ}
use cheese_kakao_talk_bot.Service.Types.{
  SessionPayload, SessionIdentity, EvaluateResult, MoveSummary,
}
use cheese_kakao_talk_bot.Service.State.{pure, ◌>>◌}
use cheese_kakao_talk_bot.Service.Environment.{Environment}
use cheese_kakao_talk_bot.Service.Sessions.{save_session}
use cheese_kakao_talk_bot.Service.Finish.{finish_game, finish_if_needed}
use cheese_kakao_talk_bot.Service.Keeping.{Any, Keeps-pure, Keeps-if, Keeps-attempt, Keeps-then}
use cheese_kakao_talk_bot.Service.Triples.{Fault}
use cheese_kakao_talk_bot.Service.Steps.{Keeps-persist_finished_game}
use cheese_kakao_talk_bot.Service.Sane.{
  allows_Sane, Playable, Safe, Safe-save_session, Safe-delete_session,
}

module _ (E : Environment) (now : ℕ) (id : SessionIdentity) (p : SessionPayload)
    (g : E.chess.Play) where
  pub Safe-finish_game :
      (r : EvaluateResult) (s : MoveSummary) → Safe E (finish_game E now id p g r s) Any
  unfolding finish_game
  Safe-finish_game r s =
      Keeps-then _ _ (Keeps-persist_finished_game E Fault (allows_Sane E) now id p g r) λ done h.
        Keeps-then _ _ (Keeps-attempt _ (Safe-delete_session E id.session_id))
          (λ u v. Keeps-pure _ tt)

  pub Safe-finish_if_needed :
      (r : EvaluateResult) (s : MoveSummary)
      → Playable E p.moves
      → Safe E (finish_if_needed E now id p g r s) Any
  unfolding finish_if_needed
  Safe-finish_if_needed r s h =
      let saved = save_session E now id.session_id p >> pure s in
      Keeps-if s.finished (finish_game E now id p g r s) saved (λ e. Safe-finish_game r s)
        λ e.
          Keeps-then {W = Any} _ _ (Safe-save_session E now id.session_id p h)
            (λ u v. Keeps-pure _ tt)
