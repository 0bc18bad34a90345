-- ===== src/Pool/Steps.antt =====
-- Whose step of the pool (internal/chess/uci/pool.go) it is, and where it takes that client.
use cheese_kakao_talk_bot.Prelude.{
  ℕ, zero, suc, ◌≡◌, ◌≢◌, refl, ap, subst, List, [], ◌∷◌, Option, none, some,
}
use cheese_kakao_talk_bot.Pool.{
  Place, out, trying, asking, creating, waiting, checking, tracking, dropping_then_try,
  dropping_then_leave, dropping_then_close, holding, putting, overflowing, closing, Goes, here,
  there, Bucket, Step, enter, take, none_idle, reserve, at_capacity, created, create_failed,
  take_waiting, cancelled, ready, unready, unready_unknown, track, decrement_then_try,
  decrement_then_leave, decrement_then_close, release_unknown, release_broken, release, put,
  channel_full, forget, close, drain, closed,
}

-- The number of the client that goes.
abbrev pub who : {a b : Place} {cs ds : List Place} → Goes a b cs ds → ℕ
who here = 0
who (there g) = suc (who g)

-- Where a client is.
abbrev pub place_of : ℕ → List Place → Option Place
place_of i [] = none
place_of zero (c ∷ cs) = some c
place_of (suc i) (c ∷ cs) = place_of i cs

abbrev pub from : {b c : Bucket} → Step b c → Place
from (enter g) = out
from (take e g) = trying
from (none_idle e g) = trying
from (reserve e g) = asking
from (at_capacity e g) = asking
from (created g) = creating
from (create_failed g) = creating
from (take_waiting e g) = waiting
from (cancelled g) = waiting
from (ready {s = s} g) = checking s
from (unready {s = s} e g) = checking s
from (unready_unknown {s = s} e g) = checking s
from (track {s = s} g) = tracking s
from (decrement_then_try g) = dropping_then_try
from (decrement_then_leave g) = dropping_then_leave
from (decrement_then_close g) = dropping_then_close
from (release_unknown {s = s} e g) = holding s
from (release_broken {s = s} e g) = holding s
from (release {s = s} e g) = holding s
from (put {s = s} e g) = putting s
from (channel_full {s = s} e g) = putting s
from (forget {s = s} g) = overflowing s
from (close g) = out
from (drain e g) = closing
from (closed e g) = closing

abbrev pub to : {b c : Bucket} → Step b c → Place
to (enter g) = trying
to (take {s = s} e g) = checking s
to (none_idle e g) = asking
to (reserve e g) = creating
to (at_capacity e g) = waiting
to {b = b} (created g) = tracking b.fresh
to (create_failed g) = dropping_then_leave
to (take_waiting {s = s} e g) = checking s
to (cancelled g) = out
to (ready {s = s} g) = tracking s
to (unready e g) = dropping_then_try
to (unready_unknown e g) = trying
to (track {s = s} g) = holding s
to (decrement_then_try g) = trying
to (decrement_then_leave g) = out
to (decrement_then_close g) = closing
to (release_unknown e g) = out
to (release_broken e g) = dropping_then_leave
to (release {s = s} e g) = putting s
to (put e g) = out
to (channel_full {s = s} e g) = overflowing s
to (forget g) = dropping_then_leave
to (close g) = closing
to (drain e g) = dropping_then_close
to (closed e g) = out

abbrev pub goes : {b c : Bucket} (s : Step b c) → Goes (from s) (to s) b.clients c.clients
goes (enter g) = g
goes (take e g) = g
goes (none_idle e g) = g
goes (reserve e g) = g
goes (at_capacity e g) = g
goes (created g) = g
goes (create_failed g) = g
goes (take_waiting e g) = g
goes (cancelled g) = g
goes (ready g) = g
goes (unready e g) = g
goes (unready_unknown e g) = g
goes (track g) = g
goes (decrement_then_try g) = g
goes (decrement_then_leave g) = g
goes (decrement_then_close g) = g
goes (release_unknown e g) = g
goes (release_broken e g) = g
goes (release e g) = g
goes (put e g) = g
goes (channel_full e g) = g
goes (forget g) = g
goes (close g) = g
goes (drain e g) = g
goes (closed e g) = g

-- The client whose step it is.
abbrev pub mover : {b c : Bucket} → Step b c → ℕ
mover s = who (goes s)

-- What is reached by the steps of one client alone.
pub data ReachBy (i : ℕ) (b : Bucket) : Bucket → Type 0 where
  stays : ReachBy i b b
  then_moves : {c d : Bucket} → ReachBy i b c → (s : Step c d) → mover s ≡ i → ReachBy i b d

pub ReachBy-trans : {i : ℕ} {a b c : Bucket} → ReachBy i a b → ReachBy i b c → ReachBy i a c
ReachBy-trans r stays = r
ReachBy-trans r (then_moves k s e) = then_moves (ReachBy-trans r k) s e

pub place_of-source :
    {a b : Place} (cs ds : List Place) (g : Goes a b cs ds) → place_of (who g) cs ≡ some a
place_of-source [] ds g = elim g [ ]
place_of-source (c ∷ cs) [] g = elim g [ ]
place_of-source (c ∷ cs) (d ∷ ds) here = refl
place_of-source (c ∷ cs) (d ∷ ds) (there g) = place_of-source cs ds g

pub place_of-target :
    {a b : Place} (cs ds : List Place) (g : Goes a b cs ds) → place_of (who g) ds ≡ some b
place_of-target [] ds g = elim g [ ]
place_of-target (c ∷ cs) [] g = elim g [ ]
place_of-target (c ∷ cs) (d ∷ ds) here = refl
place_of-target (c ∷ cs) (d ∷ ds) (there g) = place_of-target cs ds g

-- The other clients stay where they are.
pub place_of-other :
    {a b : Place} (cs ds : List Place) (g : Goes a b cs ds) (i : ℕ)
    → who g ≢ i
    → place_of i ds ≡ place_of i cs
place_of-other [] ds g i ne = elim g [ ]
place_of-other (c ∷ cs) [] g i ne = elim g [ ]
place_of-other (c ∷ cs) (d ∷ ds) here zero ne = absurd (ne refl)
place_of-other (c ∷ cs) (d ∷ ds) here (suc i) ne = refl
place_of-other (c ∷ cs) (d ∷ ds) (there g) zero ne = refl
place_of-other (c ∷ cs) (d ∷ ds) (there g) (suc i) ne =
    place_of-other cs ds g i (λ e. ne (ap suc e))

-- A client at a place can be put at another.
pub record Put (i : ℕ) (a b : Place) (cs : List Place) : Type 0 where
  pub others : List Place
  pub move : Goes a b cs others
  pub by_it : who move ≡ i
  pub arrived : place_of i others ≡ some b

or_place : Place → Option Place → Place
or_place c none = c
or_place c (some d) = d

Put-suc :
    {i : ℕ} {a b : Place} (c : Place) {cs : List Place} → Put i a b cs → Put (suc i) a b (c ∷ cs)
Put-suc c p = record {
  others = c ∷ p.others;
  move = there p.move;
  by_it = ap suc p.by_it;
  arrived = p.arrived;
}

pub go : (i : ℕ) (a b : Place) (cs : List Place) → place_of i cs ≡ some a → Put i a b cs
unfolding or_place
go i a b [] h = absurd (cc)
go zero a b (c ∷ cs) h =
    subst (λ x. Put zero x b (c ∷ cs)) (ap (or_place c) h)
      (record { others = b ∷ cs; move = here; by_it = refl; arrived = refl })
go (suc i) a b (c ∷ cs) h = Put-suc c (go i a b cs h)
