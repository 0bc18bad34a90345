-- ===== src/Pool.antt =====
-- The pool of engine sessions of one preset, internal/chess/uci/pool.go: a bucket, the part of the
-- pool's map that belongs to it, and the clients in the middle of Acquire, Release and Close. A
-- step is what a client does between two points where others can act: a critical section of a
-- mutex, a channel operation, or a call of the engine. A session is a number. A caller releases a
-- session that it has, once.
pub mod Count
pub mod Steps
pub mod Semaphore
pub mod Bounds
pub mod Progress
use cheese_kakao_talk_bot.Prelude.{
  ℕ, zero, suc, ◌+◌, ◌-◌, ◌≤◌, ◌<◌, ltb, ◌≡◌, Bool, true, false, ◌||◌, List, [], ◌∷◌, ◌++◌, length,
  nat_eq, if◌then◌else◌,
}

-- Where a client is.
pub data Place : Type 0 where
  out : Place
  -- Acquire: at the head of the loop; before `create`; in NewSession; before the second select
  trying asking creating waiting : Place
  -- Acquire: in EnsureReady; with a session, before `track`
  checking tracking : ℕ → Place
  -- before `bucket.decrement`, and then back to the loop, or out, or to Close
  dropping_then_try dropping_then_leave dropping_then_close : Place
  -- the session is the caller's
  holding : ℕ → Place
  -- Release: before `put`; after it failed
  putting overflowing : ℕ → Place
  -- Close: taking the idle sessions
  closing : Place

pub record Bucket : Type 0 where
  pub capacity : ℕ
  pub total : ℕ
  pub idle : List ℕ
  pub tracked : List ℕ
  pub fresh : ℕ
  pub clients : List Place

-- newSessionBucket: a capacity below 1 is 1, 0 stands for all those.
abbrev pub capacity_of : ℕ → ℕ
capacity_of zero = 1
capacity_of (suc n) = suc n

-- defaultPerPresetCapacity for a number of processors
unfoldable pub default_capacity : ℕ → ℕ
default_capacity cpu = if ltb cpu 2 then 2 else if ltb 4 cpu then 4 else cpu

abbrev pub outsiders : ℕ → List Place
outsiders zero = []
outsiders (suc k) = out ∷ outsiders k

-- With a number of clients.
unfoldable pub new_bucket : ℕ → ℕ → Bucket
new_bucket n k = record {
  capacity = capacity_of n;
  total = 0;
  idle = [];
  tracked = [];
  fresh = 0;
  clients = outsiders k;
}

abbrev pub is_tracked : ℕ → List ℕ → Bool
is_tracked s [] = false
is_tracked s (x ∷ xs) = nat_eq x s || is_tracked s xs

-- delete(p.sessions, s)
unfoldable pub untrack : ℕ → List ℕ → List ℕ
untrack s [] = []
untrack s (x ∷ xs) = let rest = untrack s xs in if nat_eq x s then rest else x ∷ rest

-- One client goes from a place to another.
pub data Goes (a b : Place) : List Place → List Place → Type 0 where
  here : {cs : List Place} → Goes a b (a ∷ cs) (b ∷ cs)
  there : {c : Place} {cs ds : List Place} → Goes a b cs ds → Goes a b (c ∷ cs) (c ∷ ds)

-- The bucket with the clients' new places.
abbrev pub at : Bucket → List Place → Bucket
at b cs = record b { clients = cs }

pub data Step (b : Bucket) : Bucket → Type 0 where
  -- Acquire
  enter : {cs : List Place} → Goes out trying b.clients cs → Step b (at b cs)
  take :
      {s : ℕ} {rest : List ℕ} {cs : List Place}
      → b.idle ≡ s ∷ rest
      → Goes trying (checking s) b.clients cs
      → Step b (record b { idle = rest; clients = cs })
  none_idle : {cs : List Place} → b.idle ≡ [] → Goes trying asking b.clients cs → Step b (at b cs)
  reserve :
      {cs : List Place}
      → b.total < b.capacity
      → Goes asking creating b.clients cs
      → Step b (record b { total = b.total + 1; clients = cs })
  at_capacity :
      {cs : List Place} → b.capacity ≤ b.total → Goes asking waiting b.clients cs → Step b (at b cs)
  created :
      {cs : List Place}
      → Goes creating (tracking b.fresh) b.clients cs
      → Step b (record b { fresh = b.fresh + 1; clients = cs })
  create_failed :
      {cs : List Place} → Goes creating dropping_then_leave b.clients cs → Step b (at b cs)
  take_waiting :
      {s : ℕ} {rest : List ℕ} {cs : List Place}
      → b.idle ≡ s ∷ rest
      → Goes waiting (checking s) b.clients cs
      → Step b (record b { idle = rest; clients = cs })
  cancelled : {cs : List Place} → Goes waiting out b.clients cs → Step b (at b cs)
  ready : {s : ℕ} {cs : List Place} → Goes (checking s) (tracking s) b.clients cs → Step b (at b cs)
  unready :
      {s : ℕ} {cs : List Place}
      → is_tracked s b.tracked ≡ true
      → Goes (checking s) dropping_then_try b.clients cs
      → Step b (record b { tracked = untrack s b.tracked; clients = cs })
  unready_unknown :
      {s : ℕ} {cs : List Place}
      → is_tracked s b.tracked ≡ false
      → Goes (checking s) trying b.clients cs
      → Step b (at b cs)
  track :
      {s : ℕ} {cs : List Place}
      → Goes (tracking s) (holding s) b.clients cs
      → Step b (record b { tracked = s ∷ untrack s b.tracked; clients = cs })
  -- bucket.decrement
  decrement_then_try :
      {cs : List Place}
      → Goes dropping_then_try trying b.clients cs
      → Step b (record b { total = b.total - 1; clients = cs })
  decrement_then_leave :
      {cs : List Place}
      → Goes dropping_then_leave out b.clients cs
      → Step b (record b { total = b.total - 1; clients = cs })
  decrement_then_close :
      {cs : List Place}
      → Goes dropping_then_close closing b.clients cs
      → Step b (record b { total = b.total - 1; clients = cs })
  -- Release
  release_unknown :
      {s : ℕ} {cs : List Place}
      → is_tracked s b.tracked ≡ false
      → Goes (holding s) out b.clients cs
      → Step b (at b cs)
  release_broken :
      {s : ℕ} {cs : List Place}
      → is_tracked s b.tracked ≡ true
      → Goes (holding s) dropping_then_leave b.clients cs
      → Step b (record b { tracked = untrack s b.tracked; clients = cs })
  release :
      {s : ℕ} {cs : List Place}
      → is_tracked s b.tracked ≡ true
      → Goes (holding s) (putting s) b.clients cs
      → Step b (at b cs)
  put :
      {s : ℕ} {cs : List Place}
      → length b.idle < b.capacity
      → Goes (putting s) out b.clients cs
      → Step b (record b { idle = b.idle ++ (s ∷ []); clients = cs })
  channel_full :
      {s : ℕ} {cs : List Place}
      → b.capacity ≤ length b.idle
      → Goes (putting s) (overflowing s) b.clients cs
      → Step b (at b cs)
  forget :
      {s : ℕ} {cs : List Place}
      → Goes (overflowing s) dropping_then_leave b.clients cs
      → Step b (record b { tracked = untrack s b.tracked; clients = cs })
  -- Close
  close :
      {cs : List Place}
      → Goes out closing b.clients cs
      → Step b (record b { tracked = []; clients = cs })
  drain :
      {s : ℕ} {rest : List ℕ} {cs : List Place}
      → b.idle ≡ s ∷ rest
      → Goes closing dropping_then_close b.clients cs
      → Step b (record b { idle = rest; clients = cs })
  closed : {cs : List Place} → b.idle ≡ [] → Goes closing out b.clients cs → Step b (at b cs)

pub data Reach (b : Bucket) : Bucket → Type 0 where
  start : Reach b b
  next : {c d : Bucket} → Reach b c → Step c d → Reach b d
