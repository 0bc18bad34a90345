-- ===== src/Pool/Count.antt =====
-- The sessions that are alive (internal/chess/uci/pool.go): those that are idle and those that the
-- clients have.
use cheese_kakao_talk_bot.Prelude.{ℕ, ◌+◌, ◌≤◌, ◌≡◌, List, [], ◌∷◌, length, arith}
use cheese_kakao_talk_bot.Pool.{
  Place, out, trying, asking, creating, waiting, checking, tracking, dropping_then_try,
  dropping_then_leave, dropping_then_close, holding, putting, overflowing, closing, Goes, here,
  there, Bucket,
}

-- A place where a client has a session, or is making one, or still has to count one off.
abbrev pub weight : Place → ℕ
weight out = 0
weight trying = 0
weight asking = 0
weight creating = 1
weight waiting = 0
weight (checking s) = 1
weight (tracking s) = 1
weight dropping_then_try = 1
weight dropping_then_leave = 1
weight dropping_then_close = 1
weight (holding s) = 1
weight (putting s) = 1
weight (overflowing s) = 1
weight closing = 0

abbrev pub carried : List Place → ℕ
carried [] = 0
carried (c ∷ cs) = weight c + carried cs

abbrev pub live : Bucket → ℕ
live b = length b.idle + carried b.clients

pub carried-Goes :
    (a b : Place) (cs ds : List Place)
    → Goes a b cs ds
    → carried cs + weight b ≡ carried ds + weight a
carried-Goes a b [] ds g = elim g [ ]
carried-Goes a b (c ∷ cs) [] g = elim g [ ]
carried-Goes a b (c ∷ cs) (d ∷ ds) here = omega arith
carried-Goes a b (c ∷ cs) (d ∷ ds) (there g) = omega (arith, carried-Goes a b cs ds g)

pub weight-Goes : (a b : Place) (cs ds : List Place) → Goes a b cs ds → weight a ≤ carried cs
weight-Goes a b [] ds g = elim g [ ]
weight-Goes a b (c ∷ cs) [] g = elim g [ ]
weight-Goes a b (c ∷ cs) (d ∷ ds) here = omega arith
weight-Goes a b (c ∷ cs) (d ∷ ds) (there g) = omega (arith, weight-Goes a b cs ds g)
