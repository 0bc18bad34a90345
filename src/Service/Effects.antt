-- ===== src/Service/Effects.antt =====
-- What Play (internal/service/chess/service.go) does to the stored sessions.
use cheese_kakao_talk_bot.Prelude.{
  String, ◌==◌, ◌≡◌, refl, sym, ap, inl, inr, true, List, [], ◌∷◌, ◌++◌, All, Option, none, some,
}
use cheese_kakao_talk_bot.Text.{trim_space}
use cheese_kakao_talk_bot.Service.Types.{
  SessionMeta, SessionIdentity, SessionPayload, EvaluateResult, MoveSummary, invalid_move,
  already_finished, bad_engine_move, session_not_found,
}
use cheese_kakao_talk_bot.Service.State.{
  Result, ok, err, Cache, put, Data, Store, pure, raise, ◌>>=◌, ◌>>◌,
}
use cheese_kakao_talk_bot.Service.Environment.{Environment, Moment}
use cheese_kakao_talk_bot.Service.Labels.{
  normalized, derive_identity, ensure_room_allowed, session_key,
}
use cheese_kakao_talk_bot.Service.Sessions.{
  load_session, save_session, with_preset, replay_session, is_over, apply_player_name,
}
use cheese_kakao_talk_bot.Service.Finish.{finish_game, finish_if_needed, no_result}
use cheese_kakao_talk_bot.Service.Assist.{map_engine_error}
use cheese_kakao_talk_bot.Service.Play.{
  decode_move, uci_text, add_move, named_payload, summary_of, settle, engine_move, reply, moved,
  play_move, play_loaded, play,
}
use cheese_kakao_talk_bot.Service.Triples.{
  Post, Triple, Unsent, Triple-pure, Triple-raise, Triple-if, Triple-bind, Triple-attempt,
  Triple-weaken,
}
use cheese_kakao_talk_bot.Service.Keeping.{
  Keeps, Any, OfOk-Any, OfOk-self, Keeps-lift, Keeps-then, Keeps-call, Keeps-pure,
}
use cheese_kakao_talk_bot.Service.Steps.{Keeps-apply_preset_style, Keeps-persist_finished_game}
use cheese_kakao_talk_bot.Service.Turns.{
  Quiet, allows_Quiet, Answered, silent, replied, Turn, OfOk-or_error, Wanted, Follows,
  populate_auto_assist-Alike, Follows-Alike, Triple-delete_session, Triple-save_session,
}

module _ (E : Environment) (s0 : Cache SessionPayload) where
  module _ (t : Moment) (meta : SessionMeta) where
    abbrev who : SessionIdentity
    who = derive_identity E meta

    abbrev key : String
    key = session_key E who.session_id

    -- What is left by the deletion, which may have failed.
    gone_or_not :
        (W : Wanted) (out : MoveSummary) (r : Result (Unit {0})) (d : Data E.floats)
        → out.finished ≡ true
        → Post (λ u d. d.sessions ≡ put key none s0) (Quiet E s0) r d
        → Follows E s0 key W out d
    gone_or_not W out (ok u) d e h = record { ended = λ f. inr h; goes_on = λ f. absurd (cc) }
    gone_or_not W out (err x) d e q = record { ended = λ f. inl q.same; goes_on = λ f. absurd (cc) }

    finish_game-Follows :
        (p : SessionPayload) (g : E.chess.Play) (W : Wanted) (r : EvaluateResult) (s : MoveSummary)
        → s.finished ≡ true
        → Triple Unsent
            (Quiet E s0)
            (finish_game E t.now who p g r s)
            (Follows E s0 key W)
            (Quiet E s0)
    unfolding finish_game
    finish_game-Follows p g W r s e =
        Keeps-then _ _ (Keeps-persist_finished_game E Unsent (allows_Quiet E s0) t.now who p g r)
          λ done h.
            Triple-bind _ _ (Triple-attempt _ (Triple-delete_session E s0 who.session_id))
              λ x. Triple-pure _ (λ d q. gone_or_not W _ x d e q)

    finish_if_needed-Follows :
        (p : SessionPayload) (g : E.chess.Play) (W : Wanted) (r : EvaluateResult) (s : MoveSummary)
        → W s.player_uci s.engine_uci p.moves
        → Triple Unsent
            (Quiet E s0)
            (finish_if_needed E t.now who p g r s)
            (Follows E s0 key W)
            (Quiet E s0)
    unfolding finish_if_needed
    finish_if_needed-Follows p g W r s h =
        let saved = save_session E t.now who.session_id p >> pure s in
        Triple-if s.finished (finish_game E t.now who p g r s) saved
          (λ e. finish_game-Follows p g W r s e)
          (λ e. Triple-bind _ _ (Triple-save_session E s0 t.now who.session_id p) λ u.
            Triple-pure s λ d q. record {
              ended = λ f. absurd (cc);
              goes_on = λ f. (record p { updated_at = t.now }, q, h);
            })

    settle-Follows :
        (p : SessionPayload) (g : E.chess.Play) (W : Wanted) (player engine : String × String)
        (r : EvaluateResult)
        → W player.1 engine.1 p.moves
        → Triple Unsent
            (Quiet E s0)
            (settle E t meta p g player engine r)
            (Follows E s0 key W)
            (Quiet E s0)
    unfolding settle apply_player_name summary_of
    settle-Follows p g W player engine r h =
        Triple-bind _ _
          (finish_if_needed-Follows (named_payload E t meta p g) g W r
            (summary_of E t meta p g player engine) h)
          (λ s. Triple-pure _ (λ d f.
            Follows-Alike E s0 key W _ s d
              (populate_auto_assist-Alike E t (named_payload E t meta p g) g s) f))

    abbrev next : SessionPayload → E.chess.Play → E.chess.Move → SessionPayload
    next p g m = add_move E t meta (uci_text E (E.chess.position g) m) p

    abbrev both_texts : E.chess.Play → E.chess.Move → String × String
    both_texts g m = (E.chess.encode_san (E.chess.position g) m, uci_text E (E.chess.position g) m)

    -- What is to be shown when the engine has answered.
    abbrev Leaves : SessionPayload → E.chess.Play → String × String → Wanted → Type 0
    Leaves p g player W =
        (r : EvaluateResult) (engine : String) (after : List String)
        → map_engine_error (t.evaluate p.preset p.moves) ≡ ok r
        → Answered E g r.chosen p.moves engine after
        → W player.1 engine after

    reply-Follows :
        (p : SessionPayload) (g : E.chess.Play) (W : Wanted) (player : String × String)
        → Leaves p g player W
        → Triple Unsent (Quiet E s0) (reply E t meta p g player) (Follows E s0 key W) (Quiet E s0)
    unfolding reply engine_move add_move
    reply-Follows p g W player h =
        Keeps-then {W = λ r. map_engine_error (t.evaluate p.preset p.moves) ≡ ok r} _ _
          (Keeps-lift _ (OfOk-self (map_engine_error (t.evaluate p.preset p.moves))))
          λ r a.
            Triple-if (normalized E r.chosen == "") (settle E t meta p g player ("", "") r)
              (engine_move E t meta p g player r)
              (λ e. settle-Follows p g W player ("", "") r (h r "" p.moves a (silent e)))
              λ e.
                Keeps-then
                  {W = λ m.
                    E.chess.decode_uci (E.chess.position g) (normalized E r.chosen) ≡ some m}
                  _ _
                  (Keeps-lift _ (
                    OfOk-or_error bad_engine_move
                      (E.chess.decode_uci (E.chess.position g) (normalized E r.chosen))))
                  λ m hm.
                    Keeps-then {W = λ g'. E.chess.move g m ≡ some g'} _ _
                      (Keeps-lift _ (OfOk-or_error bad_engine_move (E.chess.move g m)))
                      λ g' hg. settle-Follows (next p g m) g' W player (both_texts g m) r (
                        h r (uci_text E (E.chess.position g) m)
                          (p.moves ++ (uci_text E (E.chess.position g) m ∷ [])) a (replied e hm hg))

    moved-Follows :
        (p : SessionPayload) (g : E.chess.Play) (W : Wanted) (player : String × String)
        → Leaves p g player W
        → Triple Unsent (Quiet E s0) (moved E t meta p g player) (Follows E s0 key W) (Quiet E s0)
    unfolding moved summary_of
    moved-Follows p g W player h =
        let s = summary_of E t meta p g player ("", "") in
        Triple-if (is_over (E.chess.outcome g))
          (finish_game E t.now who (named_payload E t meta p g) g no_result s)
          (reply E t meta p g player)
          (λ e. finish_game-Follows (named_payload E t meta p g) g W no_result s e)
          (λ e. reply-Follows p g W player h)

    play_move-Follows :
        (text : String) (p : SessionPayload) (g : E.chess.Play)
        → replay_session E p.moves ≡ ok g
        → Triple Unsent
            (Quiet E s0)
            (play_move E t meta text p g)
            (Follows E s0 key (Turn E t p text))
            (Quiet E s0)
    unfolding play_move add_move
    play_move-Follows text p g hp =
        Keeps-then {W = λ m. decode_move E (E.chess.position g) text ≡ ok m} _ _
          (Keeps-lift _ (OfOk-self (decode_move E (E.chess.position g) text)))
          λ m hm.
            Keeps-then {W = λ g'. E.chess.move g m ≡ some g'} _ _
              (Keeps-lift _ (OfOk-or_error invalid_move (E.chess.move g m)))
              λ g' hg.
                moved-Follows (next p g m) g' (Turn E t p text) (both_texts g m)
                  λ r engine after asked answered. record {
                    start = g;
                    move = m;
                    board = g';
                    evaluation = r;
                    replayed = hp;
                    read = hm;
                    made = hg;
                    player_text = refl;
                    asked = asked;
                    answered = answered;
                  }

    -- What `old`, the session that was found, becomes.
    pub record Played (text : String) (out : MoveSummary) (d : Data E.floats) : Type 0 where
      pub old : SessionPayload
      pub found_old : with_preset (s0 key) ≡ some old
      pub follows : Follows E s0 key (Turn E t old text) out d

    play_loaded-Played :
        (text : String) (o : Option SessionPayload)
        → with_preset (s0 key) ≡ o
        → Triple Unsent (Quiet E s0) (play_loaded E t meta text o) (Played text) (Quiet E s0)
    unfolding play_loaded
    play_loaded-Played text none h = Triple-raise session_not_found (λ d q. q)
    play_loaded-Played text (some p) h =
        Keeps-then {W = Any} _ _
          (Keeps-apply_preset_style E Unsent (allows_Quiet E s0) E.config.default_opening_style
            p.preset)
          λ u v.
            Keeps-then {W = λ g. replay_session E p.moves ≡ ok g} _ _
              (Keeps-lift _ (OfOk-self (replay_session E p.moves)))
              λ g hg.
                Triple-if (is_over (E.chess.outcome g)) (raise already_finished)
                  (play_move E t meta text p g) (λ e. Triple-raise already_finished (λ d q. q))
                  (λ e.
                    Triple-weaken _ (play_move-Follows text p g hg) (λ d q. q)
                      (λ out d f. record { old = p; found_old = h; follows = f }) (λ d q. q))

    load_session-Quiet :
        (id : String)
        → Keeps Unsent
            (Quiet E s0)
            (load_session E id)
            (λ o. with_preset (s0 (session_key E id)) ≡ o)
    unfolding load_session
    load_session-Quiet id =
        Keeps-then _ _
          (Keeps-call {W = λ o. s0 (session_key E id) ≡ o} _
            (λ d q. (q, ap (λ c. c (session_key E id)) (sym q.same))))
          (λ o h. Keeps-pure _ (ap with_preset h))

    Triple-play :
        (input : String)
        → Triple Unsent (Quiet E s0) (play E t meta input) (Played (trim_space input)) (Quiet E s0)
    unfolding play
    Triple-play input =
        let go = load_session E who.session_id >>= play_loaded E t meta (trim_space input) in
        Keeps-then {W = Any} _ _ (Keeps-lift _ (OfOk-Any (ensure_room_allowed E meta))) λ u v.
          Triple-if (trim_space input == "") (raise invalid_move) go
            (λ e. Triple-raise invalid_move (λ d q. q))
            λ e.
              Keeps-then _ _ (load_session-Quiet who.session_id)
                (λ o h. play_loaded-Played (trim_space input) o h)

-- If Play answers, it found the session of the player; a finished game leaves no session, or that of
-- before when it could not be deleted, and a game that goes on is stored with the moves of before
-- and the move that the trimmed input is on their board, which the answer names, and then, if the
-- engine asked with these chose a move, that move, which the answer names too. If Play ends with an
-- error the sessions are as before. The faults of the cache and the database are any that happen
-- before the server acts.
pub play-Played :
    (E : Environment) (t : Moment) (meta : SessionMeta) (input : String) (w : Store E.floats)
    → All Unsent w.fates
    → Post
        (Played E w.content.sessions t meta (trim_space input))
        (Quiet E w.content.sessions)
        (play E t meta input w).0
        (play E t meta input w).1.content
play-Played E t meta input w h =
    ((Triple-play E w.content.sessions t meta input).at w h (record { same = refl })).1
