-- ===== src/Service/Sessions.antt =====
-- Sessions: how they are loaded, saved and deleted, the board they stand for, and what is shown of
-- it (internal/service/chess/service.go).
use cheese_kakao_talk_bot.Prelude.{
  ℕ, String, ◌==◌, Bool, true, false, List, [], ◌∷◌, Option, none, some, length, if◌then◌else◌,
}
use cheese_kakao_talk_bot.ChessLib.{Outcome, no_outcome}
use cheese_kakao_talk_bot.Presets.Types.{pos}
use cheese_kakao_talk_bot.Text.{to_lower}
use cheese_kakao_talk_bot.Service.Types.{
  SessionMeta, SessionPayload, SessionState, bad_session_move,
}
use cheese_kakao_talk_bot.Service.State.{Result, ok, err, M, pure, call, put, ◌>>=◌}
use cheese_kakao_talk_bot.Service.Environment.{Environment}
use cheese_kakao_talk_bot.Service.Labels.{normalized, session_key, normalize_hud_player_label}

-- A missing entry leaves an empty payload, which has no preset either.
abbrev pub with_preset : Option SessionPayload → Option SessionPayload
with_preset none = none
with_preset (some p) = if p.preset == "" then none else some p

abbrev pub is_over : Outcome → Bool
is_over no_outcome = false
is_over _ = true

abbrev pub or_default : String → String → String
or_default label other = if label == "" then other else label

module _ (E : Environment) where
  unfoldable pub load_session : String → M E.floats (Option SessionPayload)
  unfolding session_key
  load_session id = do p ← call (λ d. (ok (d.sessions (session_key E id)), d)); pure (with_preset p)

  unfoldable pub save_session : ℕ → String → SessionPayload → M E.floats (Unit {0})
  unfolding session_key
  save_session now id p = call λ d. (
    ok tt,
    record d {
      sessions = put (session_key E id) (some (record p { updated_at = now })) d.sessions;
    },
  )

  unfoldable pub delete_session : String → M E.floats (Unit {0})
  unfolding session_key
  delete_session id =
      call λ d. (ok tt, record d { sessions = put (session_key E id) none d.sessions })

  -- One move of the loop of replaySession
  abbrev pub replay_move : E.chess.Play → Option E.chess.Move → Option E.chess.Play
  replay_move g none = none
  replay_move g (some m) = E.chess.move g m

  abbrev pub replay_on :
      (E.chess.Play → Result E.chess.Play) → Option E.chess.Play → Result E.chess.Play
  replay_on rest none = err bad_session_move
  replay_on rest (some g) = rest g

  unfoldable pub replay_from : List String → E.chess.Play → Result E.chess.Play
  unfolding normalized
  replay_from [] g = ok g
  replay_from (m ∷ ms) g =
      replay_on (replay_from ms)
        (replay_move g (E.chess.decode_uci (E.chess.position g) (normalized E m)))

  unfoldable pub replay_session : List String → Result E.chess.Play
  unfolding replay_from
  replay_session ms = replay_from ms E.chess.new_game

  -- The moves in standard notation, each at the position before it.
  unfoldable pub encode_moves : List E.chess.Position → List E.chess.Move → List String
  encode_moves ps [] = []
  encode_moves [] (m ∷ ms) = "" ∷ encode_moves [] ms
  encode_moves (p ∷ ps) (m ∷ ms) = E.chess.encode_san p m ∷ encode_moves ps ms

  unfoldable pub state_from_game : SessionPayload → E.chess.Play → SessionState
  unfolding encode_moves to_lower
  state_from_game p g = record {
    session_uuid = p.session_uuid;
    player_hash = p.player_hash;
    room_hash = p.room_hash;
    player_name = p.player_name;
    preset = p.preset;
    moves = p.moves;
    moves_san = encode_moves (E.chess.positions g) (E.chess.moves g);
    fen = E.chess.fen g;
    turn = to_lower E.beyond (E.chess.side_text (E.chess.turn (E.chess.position g)));
    move_count = length (E.chess.moves g);
    outcome = E.chess.outcome g;
    outcome_method = E.chess.method g;
    started_at = p.started_at;
    updated_at = p.updated_at;
    rating_delta = pos 0;
    profile = none;
    auto_assist = p.auto_assist;
  }

unfoldable pub player_label : SessionPayload → SessionMeta → String
unfolding normalize_hud_player_label
player_label p meta =
    or_default (normalize_hud_player_label p.player_name)
      (or_default (normalize_hud_player_label meta.sender) "Player")

-- The label is written to the state and to the payload.
unfoldable pub apply_player_name :
    SessionState → SessionPayload → SessionMeta → SessionState × SessionPayload
unfolding player_label
apply_player_name s p meta =
    (record s { player_name = player_label p meta }, record p { player_name = player_label p meta })
