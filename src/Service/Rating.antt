-- ===== src/Service/Rating.antt =====
-- applyGameResult (internal/service/chess/service.go): what a finished game does to a profile.
use cheese_kakao_talk_bot.Prelude.{ℕ, String, ◌==◌, Option, none, some, if◌then◌else◌}
use cheese_kakao_talk_bot.Integers.{◌+ℤ◌, ◌-ℤ◌}
use cheese_kakao_talk_bot.ChessLib.{Outcome, no_outcome, white_won, black_won, draw}
use cheese_kakao_talk_bot.Presets.Types.{ℤ, pos}
use cheese_kakao_talk_bot.Memrepo.{ChessProfile}
use cheese_kakao_talk_bot.Service.Types.{SessionIdentity}
use cheese_kakao_talk_bot.Service.Environment.{Environment}
use cheese_kakao_talk_bot.Service.Labels.{normalized}

unfoldable pub result_from_outcome : Outcome → String
result_from_outcome white_won = "win"
result_from_outcome black_won = "loss"
result_from_outcome draw = "draw"
result_from_outcome no_outcome = "unknown"

-- The profile of a player who has none, with the rating 1200.
unfoldable pub new_profile : SessionIdentity → ℕ → ChessProfile
new_profile id now = record {
  player_hash = id.player_hash;
  room_hash = id.room_hash;
  preferred_preset = "";
  rating = pos 1200;
  games_played = pos 0;
  wins = pos 0;
  losses = pos 0;
  draws = pos 0;
  streak = pos 0;
  streak_type = "";
  last_preset = "";
  last_played_at = 0;
  updated_at = 0;
  created_at = now;
}

-- The counter of the outcome; everything but a win and a loss counts as a draw.
unfoldable pub count_result : Outcome → ChessProfile → ChessProfile
count_result white_won p = record p { wins = p.wins +ℤ pos 1 }
count_result black_won p = record p { losses = p.losses +ℤ pos 1 }
count_result draw p = record p { draws = p.draws +ℤ pos 1 }
count_result no_outcome p = record p { draws = p.draws +ℤ pos 1 }

unfoldable pub result_type : Outcome → String
result_type white_won = "win"
result_type black_won = "loss"
result_type draw = "draw"
result_type no_outcome = "draw"

unfoldable pub count_streak : String → ChessProfile → ChessProfile
count_streak t p =
    if p.streak_type == t
    then record p { streak = p.streak +ℤ pos 1 }
    else record p { streak = pos 1; streak_type = t }

module _ (E : Environment) where
  unfoldable pub preset_approx_rating : String → ℤ
  unfolding normalized
  preset_approx_rating preset =
      let n = normalized E preset in
      if n == "level1"
      then pos 600
      else if n == "level2"
      then pos 700
      else if n == "level3"
      then pos 800
      else if n == "level4"
      then pos 1000
      else if n == "level5"
      then pos 1200
      else if n == "level6"
      then pos 1400
      else if n == "level7"
      then pos 1650
      else if n == "level8"
      then pos 1900
      else pos 1500

  abbrev score : Outcome → E.maths.F
  score white_won = E.maths.ratio 1 1
  score black_won = E.maths.ratio 0 1
  score draw = E.maths.ratio 1 2
  score no_outcome = E.maths.ratio 1 2

  -- The rating after a game against an engine of a rating, with the factor 24.
  unfoldable pub next_rating : Outcome → ℤ → ℤ → ℤ
  next_rating outcome engine rating =
      let one = E.maths.ratio 1 1 in
      let gap = E.maths.over (E.maths.of_int (engine -ℤ rating)) (E.maths.ratio 400 1) in
      let expected = E.maths.over one (E.maths.plus one (E.maths.pow (E.maths.ratio 10 1) gap)) in
      E.maths.round (
        E.maths.plus (E.maths.of_int rating)
          (E.maths.times (E.maths.ratio 24 1) (E.maths.minus (score outcome) expected)))

  unfoldable pub with_result : String → Outcome → ℕ → ChessProfile → ChessProfile
  unfolding count_result count_streak result_type next_rating preset_approx_rating
  with_result preset outcome ended p =
      let begun : ChessProfile = record p {
        games_played = p.games_played +ℤ pos 1;
        last_preset = preset;
        last_played_at = ended;
        updated_at = ended;
      } in
      let counted = count_streak (result_type outcome) (count_result outcome begun) in
      record counted { rating = next_rating outcome (preset_approx_rating preset) p.rating }

  abbrev pub known_profile : Option ChessProfile → SessionIdentity → ℕ → ChessProfile
  known_profile none id now = new_profile id now
  known_profile (some p) id now = p

  -- The profile after the game, and the change of its rating.
  unfoldable pub apply_game_result :
      Option ChessProfile → SessionIdentity → String → Outcome → ℕ → ChessProfile × ℤ
  unfolding with_result new_profile
  apply_game_result known id preset outcome ended =
      let before = known_profile known id ended in
      let next = with_result preset outcome ended before in (next, next.rating -ℤ before.rating)
