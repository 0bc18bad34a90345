-- ===== src/Service/Counted.antt =====
-- The counters of a profile agree (applyGameResult of internal/service/chess/service.go).
use cheese_kakao_talk_bot.Prelude.{
  ℕ, ◌+◌, ◌≤◌, String, ◌==◌, ◌≡◌, refl, sym, ◌∙◌, false, Bool-cases, inl, inr, Option, none, some,
  arith, eq_iff, ap,
}
use cheese_kakao_talk_bot.Integers.{◌+ℤ◌}
use cheese_kakao_talk_bot.ChessLib.{Outcome, no_outcome, white_won, black_won, draw}
use cheese_kakao_talk_bot.Presets.Types.{ℤ, pos}
use cheese_kakao_talk_bot.Memrepo.{ChessProfile}
use cheese_kakao_talk_bot.Action.Commands.{OptAll}
use cheese_kakao_talk_bot.Service.Types.{SessionIdentity, SessionMeta}
use cheese_kakao_talk_bot.Service.Environment.{Environment, Moment}
use cheese_kakao_talk_bot.Service.Labels.{derive_identity}
use cheese_kakao_talk_bot.Service.Rating.{
  new_profile, count_result, count_streak, result_type, with_result, apply_game_result,
}
use cheese_kakao_talk_bot.Service.Manage.{prefer}

-- The games played are the wins, losses and draws, and a streak is no longer than the games of its
-- kind.
pub record IsCounted (p : ChessProfile) : Type 0 where
  pub won : ℕ
  pub gone : ℕ
  pub drawn : ℕ
  pub run : ℕ
  pub wins_eq : p.wins ≡ pos won
  pub losses_eq : p.losses ≡ pos gone
  pub draws_eq : p.draws ≡ pos drawn
  pub games_eq : p.games_played ≡ pos (won + gone + drawn)
  pub streak_eq : p.streak ≡ pos run
  pub win_run : p.streak_type ≡ "win" → run ≤ won
  pub loss_run : p.streak_type ≡ "loss" → run ≤ gone
  pub draw_run : p.streak_type ≡ "draw" → run ≤ drawn

pub new_profile-IsCounted : (id : SessionIdentity) (now : ℕ) → IsCounted (new_profile id now)
unfolding new_profile
new_profile-IsCounted id now = record {
  won = 0;
  gone = 0;
  drawn = 0;
  run = 0;
  wins_eq = refl;
  losses_eq = refl;
  draws_eq = refl;
  games_eq = refl;
  streak_eq = refl;
  win_run = λ e. omega arith;
  loss_run = λ e. omega arith;
  draw_run = λ e. omega arith;
}

-- What is needed of the counters before the streak is counted.
record Tally (p : ChessProfile) (t : String) : Type 0 where
  won : ℕ
  gone : ℕ
  drawn : ℕ
  run : ℕ
  wins_eq : p.wins ≡ pos won
  losses_eq : p.losses ≡ pos gone
  draws_eq : p.draws ≡ pos drawn
  games_eq : p.games_played ≡ pos (won + gone + drawn)
  streak_eq : p.streak ≡ pos run
  win_room : t ≡ "win" → (1 ≤ won) × (p.streak_type ≡ t → run + 1 ≤ won)
  loss_room : t ≡ "loss" → (1 ≤ gone) × (p.streak_type ≡ t → run + 1 ≤ gone)
  draw_room : t ≡ "draw" → (1 ≤ drawn) × (p.streak_type ≡ t → run + 1 ≤ drawn)

count_streak-IsCounted :
    (p : ChessProfile) (t : String) (r : ℤ)
    → Tally p t
    → IsCounted (record (count_streak t p) { rating = r })
unfolding count_streak
count_streak-IsCounted p t r y = elim (Bool-cases (p.streak_type == t)) [
  | inl b ↦
      let same : p.streak_type ≡ t = ground (arith, b, eq_iff p.streak_type t) in
      rw b (record {
        won = y.won;
        gone = y.gone;
        drawn = y.drawn;
        run = y.run + 1;
        wins_eq = y.wins_eq;
        losses_eq = y.losses_eq;
        draws_eq = y.draws_eq;
        games_eq = y.games_eq;
        streak_eq = rw y.streak_eq refl;
        win_run = λ e. (y.win_room (sym same ∙ e)).1 same;
        loss_run = λ e. (y.loss_room (sym same ∙ e)).1 same;
        draw_run = λ e. (y.draw_room (sym same ∙ e)).1 same;
      })
  | inr b ↦ rw b (record {
    won = y.won;
    gone = y.gone;
    drawn = y.drawn;
    run = 1;
    wins_eq = y.wins_eq;
    losses_eq = y.losses_eq;
    draws_eq = y.draws_eq;
    games_eq = y.games_eq;
    streak_eq = refl;
    win_run = λ e. (y.win_room e).0;
    loss_run = λ e. (y.loss_room e).0;
    draw_run = λ e. (y.draw_room e).0;
  })
]

room : (H : Type 0) (n k : ℕ) → (H → n ≤ k) → (1 ≤ k + 1) × (H → n + 1 ≤ k + 1)
room H n k h = (omega arith, λ e. let le : n ≤ k = h e in omega arith)

clash : {A : Type 0} (s t : String) → (s == t) ≡ false → s ≡ t → A
clash s t h e = absurd (ground (arith, eq_iff s t, h, e))

-- The profile when the game is entered, before its result is counted.
abbrev pub begun : ChessProfile → String → ℕ → ChessProfile
begun p preset ended = record p {
  games_played = p.games_played +ℤ pos 1;
  last_preset = preset;
  last_played_at = ended;
  updated_at = ended;
}

tally :
    (o : Outcome) (p : ChessProfile)
    → IsCounted p
    → (preset : String) (now : ℕ) → Tally (count_result o (begun p preset now)) (result_type o)
unfolding count_result result_type
tally white_won p c preset now = record {
  won = c.won + 1;
  gone = c.gone;
  drawn = c.drawn;
  run = c.run;
  wins_eq = rw c.wins_eq refl;
  losses_eq = c.losses_eq;
  draws_eq = c.draws_eq;
  games_eq = rw c.games_eq (ap pos (omega arith));
  streak_eq = c.streak_eq;
  win_room = λ e. room (p.streak_type ≡ "win") c.run c.won c.win_run;
  loss_room = λ e. clash "win" "loss" refl e;
  draw_room = λ e. clash "win" "draw" refl e;
}
tally black_won p c preset now = record {
  won = c.won;
  gone = c.gone + 1;
  drawn = c.drawn;
  run = c.run;
  wins_eq = c.wins_eq;
  losses_eq = rw c.losses_eq refl;
  draws_eq = c.draws_eq;
  games_eq = rw c.games_eq (ap pos (omega arith));
  streak_eq = c.streak_eq;
  win_room = λ e. clash "loss" "win" refl e;
  loss_room = λ e. room (p.streak_type ≡ "loss") c.run c.gone c.loss_run;
  draw_room = λ e. clash "loss" "draw" refl e;
}
tally draw p c preset now = record {
  won = c.won;
  gone = c.gone;
  drawn = c.drawn + 1;
  run = c.run;
  wins_eq = c.wins_eq;
  losses_eq = c.losses_eq;
  draws_eq = rw c.draws_eq refl;
  games_eq = rw c.games_eq (ap pos (omega arith));
  streak_eq = c.streak_eq;
  win_room = λ e. clash "draw" "win" refl e;
  loss_room = λ e. clash "draw" "loss" refl e;
  draw_room = λ e. room (p.streak_type ≡ "draw") c.run c.drawn c.draw_run;
}
tally no_outcome p c preset now = record {
  won = c.won;
  gone = c.gone;
  drawn = c.drawn + 1;
  run = c.run;
  wins_eq = c.wins_eq;
  losses_eq = c.losses_eq;
  draws_eq = rw c.draws_eq refl;
  games_eq = rw c.games_eq (ap pos (omega arith));
  streak_eq = c.streak_eq;
  win_room = λ e. clash "draw" "win" refl e;
  loss_room = λ e. clash "draw" "loss" refl e;
  draw_room = λ e. room (p.streak_type ≡ "draw") c.run c.drawn c.draw_run;
}

with_result-IsCounted :
    (E : Environment) (preset : String) (o : Outcome) (now : ℕ) (p : ChessProfile)
    → IsCounted p
    → IsCounted (with_result E preset o now p)
unfolding with_result
with_result-IsCounted E preset o now p c = count_streak-IsCounted _ _ _ (tally o p c preset now)

-- A profile after one more finished game has counters that agree, if it had before.
pub apply_game_result-IsCounted :
    (E : Environment) (known : Option ChessProfile) (id : SessionIdentity) (preset : String)
    (o : Outcome) (now : ℕ)
    → OptAll IsCounted known
    → IsCounted (apply_game_result E known id preset o now).0
unfolding apply_game_result
apply_game_result-IsCounted E none id preset o now c =
    with_result-IsCounted E preset o now (new_profile id now) (new_profile-IsCounted id now)
apply_game_result-IsCounted E (some p) id preset o now c = with_result-IsCounted E preset o now p c

-- Other fields do not matter.
chosen-IsCounted :
    (p : ChessProfile) (target : String) (now : ℕ)
    → IsCounted p
    → IsCounted (record p {
      preferred_preset = target;
      last_preset = target;
      last_played_at = now;
      updated_at = now;
    })
chosen-IsCounted p target now c = record {
  won = c.won;
  gone = c.gone;
  drawn = c.drawn;
  run = c.run;
  wins_eq = c.wins_eq;
  losses_eq = c.losses_eq;
  draws_eq = c.draws_eq;
  games_eq = c.games_eq;
  streak_eq = c.streak_eq;
  win_run = c.win_run;
  loss_run = c.loss_run;
  draw_run = c.draw_run;
}

pub prefer-IsCounted :
    (E : Environment) (t : Moment) (meta : SessionMeta) (target : String)
    (known : Option ChessProfile)
    → OptAll IsCounted known
    → IsCounted (prefer E t meta target known)
unfolding prefer
prefer-IsCounted E t meta target none c =
    chosen-IsCounted _ target t.now (new_profile-IsCounted (derive_identity E meta) t.now)
prefer-IsCounted E t meta target (some p) c = chosen-IsCounted p target t.now c
