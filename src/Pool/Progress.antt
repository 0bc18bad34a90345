-- ===== src/Pool/Progress.antt =====
-- A client in Acquire can go on when the pool has room, but one that already waits cannot
-- (internal/chess/uci/pool.go).
use cheese_kakao_talk_bot.Prelude.{
  ℕ, ◌+◌, ◌-◌, ◌≤◌, ◌<◌, ◌≡◌, ◌≢◌, refl, sym, ◌∙◌, ap, subst, ◌⊎◌, inl, inr, Bool, true, false,
  List, [], ◌∷◌, length, Option, none, some, arith,
}
use cheese_kakao_talk_bot.Pool.{
  Place, out, trying, asking, creating, waiting, checking, tracking, dropping_then_leave, holding,
  Bucket, Step, is_tracked, untrack, at, enter, take, none_idle, reserve, at_capacity, created,
  create_failed, take_waiting, cancelled, ready, unready, unready_unknown, track,
  decrement_then_try, decrement_then_leave, decrement_then_close, release_unknown, release_broken,
  release, put, channel_full, forget, close, drain, closed,
}
use cheese_kakao_talk_bot.Pool.Steps.{
  place_of, from, to, goes, mover, ReachBy, stays, then_moves, ReachBy-trans, place_of-source,
  place_of-target, place_of-other, go,
}

-- The client comes to hold a session by its own steps alone.
abbrev pub Served : ℕ → Bucket → Type 0
Served i b = (c : Bucket) × (s : ℕ) × ReachBy i b c × (place_of i c.clients ≡ some (holding s))

after : (i : ℕ) (b c : Bucket) (s : Step b c) → mover s ≡ i → Served i c → Served i b
after i b c s e (d, k, r, q) = (d, k, ReachBy-trans (then_moves stays s e) r, q)

track-Served : (i : ℕ) (b : Bucket) (s : ℕ) → place_of i b.clients ≡ some (tracking s) → Served i b
track-Served i b s h =
    let p = go i (tracking s) (holding s) b.clients h in
    (
      record b { tracked = s ∷ untrack s b.tracked; clients = p.others },
      s,
      then_moves stays (track p.move) p.by_it,
      p.arrived,
    )

take-Served :
    (i : ℕ) (b : Bucket) (s : ℕ) (rest : List ℕ)
    → b.idle ≡ s ∷ rest
    → place_of i b.clients ≡ some trying
    → Served i b
take-Served i b s rest e h =
    let p = go i trying (checking s) b.clients h in
    let q = go i (checking s) (tracking s) p.others p.arrived in
    let c : Bucket = record b { idle = rest; clients = p.others } in
    after i b c (take e p.move) p.by_it (
      after i c (at c q.others) (ready q.move) q.by_it (track-Served i (at c q.others) s q.arrived))

create-Served :
    (i : ℕ) (b : Bucket)
    → b.idle ≡ []
    → b.total < b.capacity
    → place_of i b.clients ≡ some trying
    → Served i b
create-Served i b e room h =
    let p = go i trying asking b.clients h in
    let q = go i asking creating p.others p.arrived in
    let r = go i creating (tracking b.fresh) q.others q.arrived in
    let c : Bucket = at b p.others in
    let d : Bucket = record b { total = b.total + 1; clients = q.others } in
    let f : Bucket = record d { fresh = b.fresh + 1; clients = r.others } in
    after i b c (none_idle e p.move) p.by_it (
      after i c d (reserve room q.move) q.by_it
        (after i d f (created r.move) r.by_it (track-Served i f b.fresh r.arrived)))

acquire_from :
    (i : ℕ) (b : Bucket) (idle : List ℕ)
    → b.idle ≡ idle
    → (1 ≤ length idle) ⊎ (b.total < b.capacity)
    → place_of i b.clients ≡ some trying
    → Served i b
acquire_from i b [] e (inl n) h = absurd (omega (arith, n))
acquire_from i b [] e (inr n) h = create-Served i b e n h
acquire_from i b (s ∷ rest) e n h = take-Served i b s rest e h

-- A client at the head of Acquire's loop can come to hold a session by steps of its own alone, if a
-- session is idle or fewer are counted than the capacity.
pub acquire-Served :
    (i : ℕ) (b : Bucket)
    → (1 ≤ length b.idle) ⊎ (b.total < b.capacity)
    → place_of i b.clients ≡ some trying
    → (c : Bucket) × (s : ℕ) × ReachBy i b c × (place_of i c.clients ≡ some (holding s))
acquire-Served i b n h = acquire_from i b b.idle refl n h

abbrev is_waiting : Place → Bool
is_waiting waiting = true
is_waiting _ = false

abbrev waits_at : Option Place → Bool
waits_at none = false
waits_at (some p) = is_waiting p

-- A client that waits while nothing is idle can only give up.
gives_up : {b c : Bucket} (s : Step b c) → b.idle ≡ [] → is_waiting (from s) ≡ true → to s ≡ out
gives_up (enter g) n h = absurd (cc)
gives_up (take e g) n h = absurd (cc)
gives_up (none_idle e g) n h = absurd (cc)
gives_up (reserve e g) n h = absurd (cc)
gives_up (at_capacity e g) n h = absurd (cc)
gives_up (created g) n h = absurd (cc)
gives_up (create_failed g) n h = absurd (cc)
gives_up (take_waiting e g) n h = absurd (cc)
gives_up (cancelled g) n h = refl
gives_up (ready g) n h = absurd (cc)
gives_up (unready e g) n h = absurd (cc)
gives_up (unready_unknown e g) n h = absurd (cc)
gives_up (track g) n h = absurd (cc)
gives_up (decrement_then_try g) n h = absurd (cc)
gives_up (decrement_then_leave g) n h = absurd (cc)
gives_up (decrement_then_close g) n h = absurd (cc)
gives_up (release_unknown e g) n h = absurd (cc)
gives_up (release_broken e g) n h = absurd (cc)
gives_up (release e g) n h = absurd (cc)
gives_up (put e g) n h = absurd (cc)
gives_up (channel_full e g) n h = absurd (cc)
gives_up (forget g) n h = absurd (cc)
gives_up (close g) n h = absurd (cc)
gives_up (drain e g) n h = absurd (cc)
gives_up (closed e g) n h = absurd (cc)

-- A client waits although the pool has room: another has released its session, no session is idle,
-- fewer are counted than the capacity, and still the only step that the client can make is to give
-- up.
pub record Stranded (i j : ℕ) (b : Bucket) : Type 0 where
  pub waits : place_of i b.clients ≡ some waiting
  pub released : place_of j b.clients ≡ some out
  pub nothing_idle : b.idle ≡ []
  pub has_room : b.total < b.capacity
  pub only_gives_up : (c : Bucket) (s : Step b c) → mover s ≡ i → place_of i c.clients ≡ some out

can_only_give_up :
    (i : ℕ) (b : Bucket)
    → b.idle ≡ []
    → place_of i b.clients ≡ some waiting
    → (c : Bucket) (s : Step b c) → mover s ≡ i
    → place_of i c.clients ≡ some out
can_only_give_up i b n h c s e =
    let here_too : place_of (mover s) b.clients ≡ some waiting =
      subst (λ k. place_of k b.clients ≡ some waiting) (sym e) h in
    let at_start : some (from s) ≡ some waiting =
      sym (place_of-source b.clients c.clients (goes s)) ∙ here_too in
    subst (λ k. place_of k c.clients ≡ some out) e
      (place_of-target b.clients c.clients (goes s) ∙ ap some (gives_up s n (ap waits_at at_start)))

differ :
    (i j s : ℕ) (cs : List Place)
    → place_of i cs ≡ some waiting
    → place_of j cs ≡ some (holding s)
    → j ≢ i
differ i j s cs h k = λ e.
    let same : some (holding s) ≡ some waiting =
      sym k ∙ subst (λ n. place_of n cs ≡ some waiting) (sym e) h in
    let other : false ≡ true = ap waits_at same in absurd (cc)

-- While a client waits for a session, nothing is idle and the pool counts one session or more, no
-- more than its capacity, another that holds a session can release it as broken by steps of its own
-- alone: then it has left, no session is idle, fewer are counted than the capacity, and the first
-- client still waits and can make no step but to give up.
pub release_broken-Stranded :
    (b : Bucket) (s i j : ℕ)
    → b.idle ≡ []
    → 1 ≤ b.total
    → b.total ≤ b.capacity
    → is_tracked s b.tracked ≡ true
    → place_of j b.clients ≡ some (holding s)
    → place_of i b.clients ≡ some waiting
    → (c : Bucket) × ReachBy j b c × Stranded i j c
release_broken-Stranded b s i j none_left one room known h w =
    let p = go j (holding s) dropping_then_leave b.clients h in
    let q = go j dropping_then_leave out p.others p.arrived in
    let ne = differ i j s b.clients w h in
    let c : Bucket = record b { tracked = untrack s b.tracked; clients = p.others } in
    let d : Bucket = record c { total = b.total - 1; clients = q.others } in
    let waits : place_of i q.others ≡ some waiting =
      place_of-other p.others q.others q.move i (λ e. ne (sym q.by_it ∙ e))
      ∙ place_of-other b.clients p.others p.move i (λ e. ne (sym p.by_it ∙ e))
      ∙ w in
    (
      d,
      then_moves (then_moves stays (release_broken known p.move) p.by_it)
          (decrement_then_leave q.move) q.by_it,
      record {
        waits = waits;
        released = q.arrived;
        nothing_idle = none_left;
        has_room = omega (arith, one, room);
        only_gives_up = can_only_give_up i d none_left waits;
      },
    )
