-- ===== src/Service/Playing.antt =====
-- Play (internal/service/chess/service.go) keeps the service's data sane: the moves that it saves
-- can be played again.
use cheese_kakao_talk_bot.Prelude.{
  String, ◌==◌, ◌≡◌, refl, sym, ◌++◌, List, [], ◌∷◌, Option, none, some,
}
use cheese_kakao_talk_bot.Text.{trim_space, to_lower}
use cheese_kakao_talk_bot.Service.Types.{
  SessionMeta, SessionPayload, EvaluateResult, Error, invalid_move, already_finished,
  bad_engine_move, session_not_found,
}
use cheese_kakao_talk_bot.Service.State.{Result, ok, err, raise, ◌>>=◌}
use cheese_kakao_talk_bot.Service.Environment.{Environment, Moment}
use cheese_kakao_talk_bot.Service.Labels.{normalized, derive_identity, ensure_room_allowed}
use cheese_kakao_talk_bot.Service.Sessions.{
  load_session, replay_session, is_over, apply_player_name,
}
use cheese_kakao_talk_bot.Service.Finish.{finish_game, no_result}
use cheese_kakao_talk_bot.Service.Assist.{map_engine_error}
use cheese_kakao_talk_bot.Service.Play.{
  or_error, or_else, decode_move, uci_text, add_move, named_payload, summary_of, settle,
  engine_move, reply, moved, play_move, play_loaded, play,
}
use cheese_kakao_talk_bot.Service.Keeping.{
  OfOk, Any, OfOk-Any, Keeps-pure, Keeps-raise, Keeps-lift, Keeps-if, Keeps-then,
}
use cheese_kakao_talk_bot.Service.Replays.{RoundTrips, Leads, Leads-snoc}
use cheese_kakao_talk_bot.Service.Triples.{Fault}
use cheese_kakao_talk_bot.Service.Steps.{Keeps-apply_preset_style}
use cheese_kakao_talk_bot.Service.Sane.{allows_Sane, Playable, Safe, Safe-load_session}
use cheese_kakao_talk_bot.Service.Kept.{Safe-finish_game, Safe-finish_if_needed}

pub OfOk-or_error : {A : Type 0} (e : Error) (o : Option A) → OfOk (λ a. o ≡ some a) (or_error e o)
OfOk-or_error e none = tt
OfOk-or_error e (some a) = refl

pub OfOk-self : {A : Type 0} (r : Result A) → OfOk (λ a. r ≡ ok a) r
OfOk-self (ok a) = refl
OfOk-self (err e) = tt

module _ (E : Environment) (trips : RoundTrips E) where
  -- The UCI text of the move is read back.
  abbrev pub ReadsBack : E.chess.Position → E.chess.Move → Type 0
  ReadsBack p m = E.chess.decode_uci p (normalized E (uci_text E p m)) ≡ some m

  read_either :
      (p : E.chess.Position) (s t : String) (e : Error) (x y : Option E.chess.Move)
      → x ≡ E.chess.decode_san p s
      → y ≡ E.chess.decode_uci p t
      → OfOk (ReadsBack p) (or_error e (or_else x y))
  read_either p s t e none none ex ey = tt
  read_either p s t e none (some m) ex ey = trips.from_uci p t m (sym ey)
  read_either p s t e (some m) y ex ey = trips.from_san p s m (sym ex)

  decode_move-ReadsBack :
      (p : E.chess.Position) (text : String) → OfOk (ReadsBack p) (decode_move E p text)
  unfolding decode_move
  decode_move-ReadsBack p text =
      read_either p text (to_lower E.beyond text) invalid_move (E.chess.decode_san p text)
        (E.chess.decode_uci p (to_lower E.beyond text)) refl refl

  engine_move-ReadsBack :
      (p : E.chess.Position) (s : String) (e : Error) (x : Option E.chess.Move)
      → x ≡ E.chess.decode_uci p s
      → OfOk (ReadsBack p) (or_error e x)
  engine_move-ReadsBack p s e none ex = tt
  engine_move-ReadsBack p s e (some m) ex = trips.from_uci p s m (sym ex)

  one_more :
      (ms : List String) (g g' : E.chess.Play) (m : E.chess.Move)
      → Leads E E.chess.new_game ms g
      → ReadsBack (E.chess.position g) m
      → E.chess.move g m ≡ some g'
      → Leads E E.chess.new_game (ms ++ (uci_text E (E.chess.position g) m ∷ [])) g'
  one_more ms g g' m l r e = Leads-snoc E ms E.chess.new_game g g' _ l (rw r e)

  module _ (t : Moment) (meta : SessionMeta) where
    abbrev next : SessionPayload → E.chess.Play → E.chess.Move → SessionPayload
    next p g m = add_move E t meta (uci_text E (E.chess.position g) m) p

    abbrev both_texts : E.chess.Play → E.chess.Move → String × String
    both_texts g m = (E.chess.encode_san (E.chess.position g) m, uci_text E (E.chess.position g) m)

    Safe-settle :
        (p : SessionPayload) (g : E.chess.Play) (player engine : String × String)
        (r : EvaluateResult)
        → Playable E p.moves
        → Safe E (settle E t meta p g player engine r) Any
    unfolding settle apply_player_name
    Safe-settle p g player engine r h =
        Keeps-then _ _
          (Safe-finish_if_needed E t.now (derive_identity E meta) (named_payload E t meta p g) g r
            (summary_of E t meta p g player engine) h)
          (λ s v. Keeps-pure _ tt)

    Safe-engine_move :
        (p : SessionPayload) (g : E.chess.Play) (player : String × String) (r : EvaluateResult)
        → Leads E E.chess.new_game p.moves g
        → Safe E (engine_move E t meta p g player r) Any
    unfolding engine_move add_move
    Safe-engine_move p g player r l =
        Keeps-then _ _
          (Keeps-lift _ (
            engine_move-ReadsBack (E.chess.position g) (normalized E r.chosen) bad_engine_move _
              refl))
          λ m hm.
            Keeps-then _ _ (Keeps-lift _ (OfOk-or_error bad_engine_move (E.chess.move g m)))
              λ g' hg.
                Safe-settle (next p g m) g' player (both_texts g m) r
                  (g', one_more p.moves g g' m l hm hg)

    Safe-reply :
        (p : SessionPayload) (g : E.chess.Play) (player : String × String)
        → Leads E E.chess.new_game p.moves g
        → Safe E (reply E t meta p g player) Any
    unfolding reply
    Safe-reply p g player l =
        Keeps-then _ _
          (Keeps-lift {W = Any} _ (OfOk-Any (map_engine_error (t.evaluate p.preset p.moves))))
          λ r h.
            Keeps-if (normalized E r.chosen == "") (settle E t meta p g player ("", "") r)
              (engine_move E t meta p g player r) (λ e. Safe-settle p g player ("", "") r (g, l))
              (λ e. Safe-engine_move p g player r l)

    Safe-moved :
        (p : SessionPayload) (g : E.chess.Play) (player : String × String)
        → Leads E E.chess.new_game p.moves g
        → Safe E (moved E t meta p g player) Any
    unfolding moved
    Safe-moved p g player l =
        let last =
          finish_game E t.now (derive_identity E meta) (named_payload E t meta p g) g no_result
            (summary_of E t meta p g player ("", "")) in
        Keeps-if (is_over (E.chess.outcome g)) last (reply E t meta p g player)
          (λ e.
            Safe-finish_game E t.now (derive_identity E meta) (named_payload E t meta p g) g
              no_result (summary_of E t meta p g player ("", "")))
          (λ e. Safe-reply p g player l)

    Safe-play_move :
        (text : String) (p : SessionPayload) (g : E.chess.Play)
        → Leads E E.chess.new_game p.moves g
        → Safe E (play_move E t meta text p g) Any
    unfolding play_move add_move
    Safe-play_move text p g l =
        Keeps-then _ _ (Keeps-lift _ (decode_move-ReadsBack (E.chess.position g) text)) λ m hm.
          Keeps-then _ _ (Keeps-lift _ (OfOk-or_error invalid_move (E.chess.move g m)))
            λ g' hg. Safe-moved (next p g m) g' (both_texts g m) (one_more p.moves g g' m l hm hg)

    Safe-play_loaded :
        (text : String) (o : Option SessionPayload) → Safe E (play_loaded E t meta text o) Any
    unfolding play_loaded replay_session
    Safe-play_loaded text none = Keeps-raise session_not_found
    Safe-play_loaded text (some p) =
        Keeps-then {W = Any} _ _
          (Keeps-apply_preset_style E Fault (allows_Sane E) E.config.default_opening_style p.preset)
          λ u v. Keeps-then _ _ (Keeps-lift _ (OfOk-self (replay_session E p.moves))) λ g hg.
            Keeps-if (is_over (E.chess.outcome g)) (raise already_finished)
              (play_move E t meta text p g) (λ e. Keeps-raise already_finished)
              (λ e. Safe-play_move text p g (record { replayed = hg }))

    pub Safe-play : (input : String) → Safe E (play E t meta input) Any
    unfolding play
    Safe-play input =
        let go =
          load_session E (derive_identity E meta).session_id
          >>= play_loaded E t meta (trim_space input) in
        Keeps-then {W = Any} _ _ (Keeps-lift _ (OfOk-Any (ensure_room_allowed E meta))) λ u v.
          Keeps-if (trim_space input == "") (raise invalid_move) go (λ e. Keeps-raise invalid_move)
            λ e.
              Keeps-then _ _ (Safe-load_session E (derive_identity E meta).session_id)
                (λ o h. Safe-play_loaded (trim_space input) o)
