-- ===== src/Action/Answers.antt =====
-- Commands that only read: their answer is true of the database that they leave.
use cheese_kakao_talk_bot.Prelude.{◌≡◌, List, [], ◌∷◌}
use cheese_kakao_talk_bot.Errors.{Result, ok}
use cheese_kakao_talk_bot.Redis.{Redis}
use cheese_kakao_talk_bot.Action.{
  Fate, sound, dropped, lost, conflict, Event, World, raise, call, call_at, deliver,
}
use cheese_kakao_talk_bot.Action.Ensures.{Stable, Holds}

module _ (R : Redis) (P : R.Db → Type 0) {A : Type 0} (f : R.Db → Result A × R.Db)
    (reads : (d : R.Db) → (f d).1 ≡ d) where
  -- What was answered is what the database after the command answers.
  pub record Answers (rw : Result A × World R) : Type 0 where
    pub holds : Holds R P rw.1
    pub truth : (a : A) → rw.0 ≡ ok a → (f rw.1.db).0 ≡ ok a

  perform-Answers : (w : World R) → Holds R P w → Answers (deliver sound f w)
  perform-Answers w h = rw (reads w.db) (record { holds = h; truth = λ a e. e })

  deliver-Answers : (t : Fate) (w : World R) → Holds R P w → Answers (deliver t f w)
  unfolding raise
  deliver-Answers sound w h = perform-Answers w h
  deliver-Answers conflict w h = perform-Answers w h
  deliver-Answers dropped w h = record { holds = h; truth = λ a e. absurd (cc) }
  deliver-Answers lost w h = rw (reads w.db) (record { holds = h; truth = λ a e. absurd (cc) })

  Answers-at :
      (es : List (Event R)) (w : World R)
      → P w.db
      → Stable R P es
      → Holds R P w
      → Answers (call_at es f w)
  Answers-at [] w p s h = perform-Answers w h
  Answers-at (e ∷ es) w p s h =
      deliver-Answers e.fate (record w { db = e.before w.db; events = es })
        (record { now = s.0 w.db p; later = s.1 })

  pub call-Answers : (w : World R) → Holds R P w → Answers (call f w)
  unfolding call
  call-Answers w h = Answers-at w.events w h.now h.later h
