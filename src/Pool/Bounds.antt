-- ===== src/Pool/Bounds.antt =====
-- The bounds of the pool (internal/chess/uci/pool.go): no more sessions are alive than the pool
-- counts, and no more are counted than its capacity; seen from outside it is a semaphore.
use cheese_kakao_talk_bot.Prelude.{
  ℕ, zero, suc, ◌+◌, ◌≤◌, ◌<◌, ◌≡◌, refl, subst, ◌∙◌, ap, some, List, [], ◌∷◌, length,
  length-append, arith,
}
use cheese_kakao_talk_bot.Pool.{
  Place, out, trying, asking, creating, waiting, checking, tracking, dropping_then_try,
  dropping_then_leave, dropping_then_close, holding, putting, overflowing, closing, Goes, Bucket,
  capacity_of, outsiders, new_bucket, Step, Reach, start, next, enter, take, none_idle, reserve,
  at_capacity, created, create_failed, take_waiting, cancelled, ready, unready, unready_unknown,
  track, decrement_then_try, decrement_then_leave, decrement_then_close, release_unknown,
  release_broken, release, put, channel_full, forget, close, drain, closed,
}
use cheese_kakao_talk_bot.Pool.Semaphore.{Act, run, act, trace, Does, perform_lem}
use cheese_kakao_talk_bot.Pool.Count.{carried, live, carried-Goes, weight-Goes}

pub record IsBounded (b : Bucket) : Type 0 where
  pub alive : live b ≤ b.total
  pub counted : b.total ≤ b.capacity

record Effect (b c : Bucket) (a : Act) : Type 0 where
  same_capacity : c.capacity ≡ b.capacity
  stays_bounded : IsBounded c
  acts : Does b.capacity a (live b) (live c)

idle_length : (idle rest : List ℕ) (s : ℕ) → idle ≡ s ∷ rest → length idle ≡ length rest + 1
idle_length idle rest s e = ap length e ∙ omega arith

step-Effect : (b c : Bucket) → IsBounded b → (s : Step b c) → Effect b c (act s)
step-Effect b c h (enter {cs = cs} g) =
    omega (arith, h.alive, h.counted, carried-Goes out trying b.clients cs g)
step-Effect b c h (take {s = s} {rest = rest} {cs = cs} e g) = omega (
  arith,
  h.alive,
  h.counted,
  carried-Goes trying (checking s) b.clients cs g,
  idle_length b.idle rest s e,
)
step-Effect b c h (none_idle {cs = cs} e g) =
    omega (arith, h.alive, h.counted, carried-Goes trying asking b.clients cs g)
step-Effect b c h (reserve {cs = cs} e g) =
    omega (arith, h.alive, h.counted, carried-Goes asking creating b.clients cs g, e)
step-Effect b c h (at_capacity {cs = cs} e g) =
    omega (arith, h.alive, h.counted, carried-Goes asking waiting b.clients cs g, e)
step-Effect b c h (created {cs = cs} g) =
    omega (arith, h.alive, h.counted, carried-Goes creating (tracking b.fresh) b.clients cs g)
step-Effect b c h (create_failed {cs = cs} g) =
    omega (arith, h.alive, h.counted, carried-Goes creating dropping_then_leave b.clients cs g)
step-Effect b c h (take_waiting {s = s} {rest = rest} {cs = cs} e g) = omega (
  arith,
  h.alive,
  h.counted,
  carried-Goes waiting (checking s) b.clients cs g,
  idle_length b.idle rest s e,
)
step-Effect b c h (cancelled {cs = cs} g) =
    omega (arith, h.alive, h.counted, carried-Goes waiting out b.clients cs g)
step-Effect b c h (ready {s = s} {cs = cs} g) =
    omega (arith, h.alive, h.counted, carried-Goes (checking s) (tracking s) b.clients cs g)
step-Effect b c h (unready {s = s} {cs = cs} e g) =
    omega (arith, h.alive, h.counted, carried-Goes (checking s) dropping_then_try b.clients cs g)
step-Effect b c h (unready_unknown {s = s} {cs = cs} e g) =
    omega (arith, h.alive, h.counted, carried-Goes (checking s) trying b.clients cs g)
step-Effect b c h (track {s = s} {cs = cs} g) =
    omega (arith, h.alive, h.counted, carried-Goes (tracking s) (holding s) b.clients cs g)
step-Effect b c h (decrement_then_try {cs = cs} g) =
    omega (arith, h.alive, h.counted, carried-Goes dropping_then_try trying b.clients cs g)
step-Effect b c h (decrement_then_leave {cs = cs} g) =
    omega (arith, h.alive, h.counted, carried-Goes dropping_then_leave out b.clients cs g)
step-Effect b c h (decrement_then_close {cs = cs} g) =
    omega (arith, h.alive, h.counted, carried-Goes dropping_then_close closing b.clients cs g)
step-Effect b c h (release_unknown {s = s} {cs = cs} e g) =
    omega (arith, h.alive, h.counted, carried-Goes (holding s) out b.clients cs g)
step-Effect b c h (release_broken {s = s} {cs = cs} e g) =
    omega (arith, h.alive, h.counted, carried-Goes (holding s) dropping_then_leave b.clients cs g)
step-Effect b c h (release {s = s} {cs = cs} e g) =
    omega (arith, h.alive, h.counted, carried-Goes (holding s) (putting s) b.clients cs g)
step-Effect b c h (put {s = s} {cs = cs} e g) = omega (
  arith,
  h.alive,
  h.counted,
  carried-Goes (putting s) out b.clients cs g,
  length-append b.idle (s ∷ []),
)
step-Effect b c h (channel_full {s = s} {cs = cs} e g) =
    omega (arith, h.alive, h.counted, carried-Goes (putting s) (overflowing s) b.clients cs g)
step-Effect b c h (forget {s = s} {cs = cs} g) =
    omega
      (arith, h.alive, h.counted, carried-Goes (overflowing s) dropping_then_leave b.clients cs g)
step-Effect b c h (close {cs = cs} g) =
    omega (arith, h.alive, h.counted, carried-Goes out closing b.clients cs g)
step-Effect b c h (drain {s = s} {rest = rest} {cs = cs} e g) = omega (
  arith,
  h.alive,
  h.counted,
  carried-Goes closing dropping_then_close b.clients cs g,
  idle_length b.idle rest s e,
)
step-Effect b c h (closed {cs = cs} e g) =
    omega (arith, h.alive, h.counted, carried-Goes closing out b.clients cs g)

carried-outsiders : (k : ℕ) → carried (outsiders k) ≡ 0
carried-outsiders zero = refl
carried-outsiders (suc k) = omega (arith, carried-outsiders k)

capacity_of-positive : (n : ℕ) → 1 ≤ capacity_of n
capacity_of-positive zero = omega arith
capacity_of-positive (suc n) = omega arith

record Reached (n : ℕ) (b : Bucket) (acts : List Act) : Type 0 where
  same_capacity : b.capacity ≡ capacity_of n
  bounded : IsBounded b
  runs : run (capacity_of n) acts ≡ some (live b)

reach-Reached : (n k : ℕ) (b : Bucket) (r : Reach (new_bucket n k) b) → Reached n b (trace r)
unfolding new_bucket trace run
reach-Reached n k b start = record {
  same_capacity = refl;
  bounded = record { alive = omega (arith, carried-outsiders k); counted = omega arith };
  runs =
      let none_live : 0 ≡ 0 + carried (outsiders k) = omega (arith, carried-outsiders k) in
      ap some none_live;
}
reach-Reached n k b (next {c = c} r s) =
    let before = reach-Reached n k c r in
    let e = step-Effect c b before.bounded s in
    let acts = subst (λ m. Does m (act s) (live c) (live b)) before.same_capacity e.acts in
    record {
      same_capacity = e.same_capacity ∙ before.same_capacity;
      bounded = e.stays_bounded;
      runs = rw (before.runs) (perform_lem (capacity_of n) (act s) (live c) (live b) acts);
    }

-- Whatever steps any number of clients take, each of them in Acquire, Release or Close: no more
-- sessions are alive than the pool counts, and it counts no more than its capacity.
pub reach-IsBounded :
    (n k : ℕ) (b : Bucket)
    → Reach (new_bucket n k) b
    → (live b ≤ b.total) × (b.total ≤ capacity_of n)
reach-IsBounded n k b r =
    let x = reach-Reached n k b r in
    (x.bounded.alive, subst (λ m. b.total ≤ m) x.same_capacity x.bounded.counted)

-- Whatever steps any number of clients take, a semaphore with as many places as the pool's capacity
-- allows what they are for it, reserving and giving back, in their order, and the places that are
-- then taken are as many as the sessions that are alive.
pub reach-Runs :
    (n k : ℕ) (b : Bucket) (r : Reach (new_bucket n k) b)
    → run (capacity_of n) (trace r) ≡ some (live b)
reach-Runs n k b r = (reach-Reached n k b r).runs

-- Release always finds room in the channel of idle sessions: its branch for a full channel is never
-- taken.
pub release-room :
    (n k : ℕ) (b : Bucket) (s : ℕ) (p : Place) (cs : List Place)
    → Reach (new_bucket n k) b
    → Goes (putting s) p b.clients cs
    → length b.idle < b.capacity
release-room n k b s p cs r g =
    let x = reach-Reached n k b r in
    let k = weight-Goes (putting s) p b.clients cs g in
    omega (arith, x.bounded.alive, x.bounded.counted, k)
