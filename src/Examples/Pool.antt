-- ===== src/Examples/Pool.antt =====
-- The pool of engine sessions with a few clients.
use cheese_kakao_talk_bot.Prelude.{ℕ, ◌≤◌, ◌<◌, ◌≡◌, some, refl, [], ◌∷◌, length, inr, arith}
use cheese_kakao_talk_bot.Pool.{
  out, trying, waiting, holding, putting, here, Bucket, capacity_of, new_bucket, Reach, start, next,
  enter, none_idle, reserve, created, track, release, untrack,
}
use cheese_kakao_talk_bot.Pool.Count.{live}
use cheese_kakao_talk_bot.Pool.Bounds.{reach-IsBounded, reach-Runs, release-room}
use cheese_kakao_talk_bot.Pool.Semaphore.{run, trace}
use cheese_kakao_talk_bot.Pool.Steps.{place_of, ReachBy}
use cheese_kakao_talk_bot.Pool.Progress.{acquire-Served, Stranded, release_broken-Stranded}

abbrev fresh_bucket : Bucket
fresh_bucket = new_bucket 0 2

-- One client gives back the only session.
abbrev returning : Bucket
returning = record {
  capacity = 1;
  total = 1;
  idle = [];
  tracked = 0 ∷ [];
  fresh = 1;
  clients = putting 0 ∷ out ∷ [];
}

returned : Reach (new_bucket 0 2) returning
unfolding new_bucket untrack
returned =
    next
      (next
        (next
          (next (next (next start (enter here)) (none_idle refl here)) (reserve (omega arith) here))
          (created here))
        (track here))
      (release refl here)

reach-IsBounded_example : (live returning ≤ returning.total) × (returning.total ≤ capacity_of 0)
reach-IsBounded_example = reach-IsBounded 0 2 returning returned

one_taken : run 1 (trace returned) ≡ some 1
unfolding run trace returned
one_taken = refl

reach-Runs_example : run (capacity_of 0) (trace returned) ≡ some (live returning)
reach-Runs_example = reach-Runs 0 2 returning returned

release-room_example : length returning.idle < returning.capacity
release-room_example = release-room 0 2 returning 0 out (out ∷ out ∷ []) returned here

-- A client begins while another has the only session.
abbrev roomy : Bucket
roomy = record returning { capacity = 2; clients = holding 0 ∷ trying ∷ [] }

acquire-Served_example :
    (c : Bucket) × (s : ℕ) × ReachBy 1 roomy c × (place_of 1 c.clients ≡ some (holding s))
acquire-Served_example = acquire-Served 1 roomy (inr (omega arith)) refl

-- One client has the only session, and another waits for it.
abbrev busy : Bucket
busy = record returning { clients = holding 0 ∷ waiting ∷ [] }

release_broken-Stranded_example : (c : Bucket) × ReachBy 0 busy c × Stranded 1 0 c
release_broken-Stranded_example =
    release_broken-Stranded busy 0 1 0 refl (omega arith) (omega arith) refl refl refl
