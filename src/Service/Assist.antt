-- ===== src/Service/Assist.antt =====
-- Suggestions (computeAssistSuggestion, populateAutoAssist), what an engine's failure becomes, and
-- the time it is given (internal/service/chess/service.go).
use cheese_kakao_talk_bot.Prelude.{
  ℕ, zero, suc, ◌+◌, ◌*◌, ◌%◌, ◌^◌, String, ◌==◌, Bool, true, false, not, ◌||◌, List, [], ◌∷◌,
  Option, none, some, if◌then◌else◌,
}
use cheese_kakao_talk_bot.Humanizer.{int_less}
use cheese_kakao_talk_bot.ChessLib.{Side, white_side}
use cheese_kakao_talk_bot.Presets.Types.{ℤ, pos, negsuc, DifficultyPreset}
use cheese_kakao_talk_bot.Presets.Registry.{Registry, Found, unknown_name, found, get_preset}
use cheese_kakao_talk_bot.Text.{equal_fold}
use cheese_kakao_talk_bot.Service.Types.{
  SessionPayload, Evaluation, evaluated, timed_out, broken, EvaluateResult, Candidate,
  AssistSuggestion, MoveSummary, engine_timeout, engine_unavailable,
}
use cheese_kakao_talk_bot.Service.State.{Result, ok, err}
use cheese_kakao_talk_bot.Service.Environment.{Environment, Moment}
use cheese_kakao_talk_bot.Service.Labels.{normalized}

-- mapEngineError; `timed_out` stands for a deadline, a cancellation, or "timeout" in the text.
unfoldable pub map_engine_error : Evaluation → Result EvaluateResult
map_engine_error (evaluated r) = ok r
map_engine_error timed_out = err engine_timeout
map_engine_error broken = err engine_unavailable

-- A time.Duration is an int64 of nanoseconds; it is its bits here, a number below 2 ^ 64, and its
-- products and sums wrap around. A preset's limits are of Go's int, with 64 bits.
abbrev pub times_wrapped : ℕ → ℕ → ℕ
times_wrapped a b = (a * b) % 2 ^ 64

-- time.Millisecond and time.Second
abbrev pub millisecond : ℕ
millisecond = 1000000

abbrev pub second : ℕ
second = 1000000000

abbrev pub clamp_depth : ℕ → ℕ
clamp_depth base =
    if int_less base (3 * second)
    then 3 * second
    else if int_less (15 * second) base
    then 15 * second
    else base

abbrev pub depth_timeout : ℤ → ℕ
depth_timeout (pos zero) = 5 * second
depth_timeout (pos (suc d)) = clamp_depth (times_wrapped (times_wrapped (d + 1) 200) millisecond)
depth_timeout (negsuc n) = 5 * second

abbrev pub move_timeout : ℤ → ℕ → ℕ
move_timeout (pos zero) other = other
move_timeout (pos (suc t)) other =
    times_wrapped (times_wrapped ((t + 1 + 800) % 2 ^ 64) millisecond) 2
move_timeout (negsuc n) other = other

module _ (E : Environment) where
  unfoldable pub evaluation_timeout_from_preset : DifficultyPreset E.floats → ℕ
  evaluation_timeout_from_preset p = move_timeout p.move_time_millis (depth_timeout p.depth_cap)

  abbrev pub timeout_found : Found E.floats → ℕ
  timeout_found (unknown_name e) = 8 * second + 2 * second
  timeout_found (found p) =
      let t = (evaluation_timeout_from_preset p + 2 * second) % 2 ^ 64 in
      if int_less t (8 * second) then 8 * second else t

  unfoldable pub evaluation_timeout : Registry E.floats → String → ℕ
  unfolding get_preset evaluation_timeout_from_preset
  evaluation_timeout r name = timeout_found (get_preset E.floats r name)

  -- The score and the line of the first candidate that is the best move, or 0 and nothing.
  unfoldable pub score_of : String → List Candidate → ℤ × List String
  unfolding equal_fold
  score_of best [] = (pos 0, [])
  score_of best (c ∷ cs) =
      let rest = score_of best cs in
      if equal_fold E.orbit c.move best then (c.eval_cp, c.principal) else rest

  abbrev or_first : List String → List String → List String
  or_first [] other = other
  or_first (l ∷ ls) other = l ∷ ls

  abbrev pub is_zero : ℤ → Bool
  is_zero (pos zero) = true
  is_zero _ = false

  -- A score 0 is replaced by that of the first candidate.
  unfoldable pub scored : List Candidate → ℤ × List String → ℤ × List String
  scored [] s = s
  scored (c ∷ cs) (cp, line) =
      if is_zero cp then (c.eval_cp, or_first line c.principal) else (cp, line)

  abbrev san_of : E.chess.Position → Option E.chess.Move → String
  san_of p none = ""
  san_of p (some m) = E.chess.encode_san p m

  unfoldable pub suggest : E.chess.Position → EvaluateResult → Result AssistSuggestion
  unfolding normalized score_of scored
  suggest p r =
      let best =
        if normalized E r.best_move == ""
        then normalized E r.chosen
        else normalized E r.best_move in
      let s = scored r.candidates (score_of best r.candidates) in
      if best == ""
      then err engine_unavailable
      else ok (record {
        move_uci = best;
        move_san = san_of p (E.chess.decode_uci p best);
        evaluation_cp = s.0;
        principal = s.1;
        duration = r.duration;
      })

  abbrev suggest_from : E.chess.Play → Result EvaluateResult → Result AssistSuggestion
  suggest_from g (err e) = err e
  suggest_from g (ok r) = suggest (E.chess.position g) r

  unfoldable pub compute_assist_suggestion :
      Moment → SessionPayload → E.chess.Play → Result AssistSuggestion
  unfolding suggest map_engine_error
  compute_assist_suggestion t p g = suggest_from g (map_engine_error (t.evaluate "level8" p.moves))

  abbrev pub is_white_side : Side → Bool
  is_white_side white_side = true
  is_white_side _ = false

  abbrev pub with_suggestion : Result AssistSuggestion → MoveSummary → MoveSummary
  with_suggestion (err e) s = s
  with_suggestion (ok a) s = record s {
    assist = some a;
    state = record s.state { auto_assist = true };
  }

  unfoldable pub populate_auto_assist :
      Moment → SessionPayload → E.chess.Play → MoveSummary → MoveSummary
  unfolding compute_assist_suggestion
  populate_auto_assist t p g s =
      if not p.auto_assist || s.finished
      then s
      else if not (is_white_side (E.chess.turn (E.chess.position g)))
      then s
      else with_suggestion (compute_assist_suggestion t p g) s
