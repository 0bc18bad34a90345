-- ===== src/Pool/Semaphore.antt =====
-- A semaphore, and what the steps of the pool (internal/chess/uci/pool.go) are for it.
use cheese_kakao_talk_bot.Prelude.{
  ℕ, zero, suc, ◌+◌, ◌<◌, ltb, ◌≡◌, ap, List, [], ◌∷◌, Option, none, some, if◌then◌else◌, arith,
}
use cheese_kakao_talk_bot.ChessLib.{and_then}
use cheese_kakao_talk_bot.Pool.{
  Bucket, Step, Reach, start, next, enter, take, none_idle, reserve, at_capacity, created,
  create_failed, take_waiting, cancelled, ready, unready, unready_unknown, track,
  decrement_then_try, decrement_then_leave, decrement_then_close, release_unknown, release_broken,
  release, put, channel_full, forget, close, drain, closed,
}

pub data Act : Type 0 where
  take_place give_back nothing : Act

-- A semaphore with `cap` places of which `n` are taken: `none` if it does not allow the act.
abbrev pub perform : ℕ → Act → ℕ → Option ℕ
perform cap take_place n = if ltb n cap then some (n + 1) else none
perform cap give_back zero = none
perform cap give_back (suc n) = some n
perform cap nothing n = some n

-- The places that are taken after some acts, the latest first; none are at the beginning.
unfoldable pub run : ℕ → List Act → Option ℕ
run cap [] = some 0
run cap (a ∷ acts) = and_then (run cap acts) (perform cap a)

-- To reserve a place for a session takes one. The pool's decrement gives one back, and so does a
-- session that the pool does not know any more when it comes to be closed.
abbrev pub act : {b c : Bucket} → Step b c → Act
act (enter g) = nothing
act (take e g) = nothing
act (none_idle e g) = nothing
act (reserve e g) = take_place
act (at_capacity e g) = nothing
act (created g) = nothing
act (create_failed g) = nothing
act (take_waiting e g) = nothing
act (cancelled g) = nothing
act (ready g) = nothing
act (unready e g) = nothing
act (unready_unknown e g) = give_back
act (track g) = nothing
act (decrement_then_try g) = give_back
act (decrement_then_leave g) = give_back
act (decrement_then_close g) = give_back
act (release_unknown e g) = give_back
act (release_broken e g) = nothing
act (release e g) = nothing
act (put e g) = nothing
act (channel_full e g) = nothing
act (forget g) = nothing
act (close g) = nothing
act (drain e g) = nothing
act (closed e g) = nothing

-- What some steps are for the semaphore.
unfoldable pub trace : {b c : Bucket} → Reach b c → List Act
trace start = []
trace (next r s) = act s ∷ trace r

-- An act in numbers
abbrev pub Does : ℕ → Act → ℕ → ℕ → Type 0
Does cap take_place n m = (n < cap) × (m ≡ n + 1)
Does cap give_back n m = n ≡ m + 1
Does cap nothing n m = m ≡ n

pub perform_lem : (cap : ℕ) (a : Act) (n m : ℕ) → Does cap a n m → perform cap a n ≡ some m
perform_lem cap take_place n m h = ground (arith, h)
perform_lem cap give_back zero m h = absurd (omega (arith, h))
perform_lem cap give_back (suc n) m h = let e : n ≡ m = omega (arith, h) in ap some e
perform_lem cap nothing n m h = let e : n ≡ m = omega (arith, h) in ap some e
