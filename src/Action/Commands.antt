-- ===== src/Action/Commands.antt =====
-- Invariants of single commands. Reading keeps every invariant; `Tame` invariants are kept by the
-- commands that write no document.
use cheese_kakao_talk_bot.Prelude.{String, ◌≡◌, refl, Option, none, some}
use cheese_kakao_talk_bot.Documents.{Doc}
use cheese_kakao_talk_bot.Redis.{Redis, Entry, text, set, get_reply}
use cheese_kakao_talk_bot.Action.{call}
use cheese_kakao_talk_bot.Action.Ensures.{Ensures, Ensures-call, Post, trivial-Post}

pub record Tame (R : Redis) (P : R.Db → Type 0) : Type 0 where
  pub expire_keeps : (k : String) (d : R.Db) → P d → P (R.expire k d).1
  pub sadd_keeps : (k m : String) (d : R.Db) → P d → P (R.sadd k m d).1
  pub srem_keeps : (k m : String) (d : R.Db) → P d → P (R.srem k m d).1

abbrev pub Any {ℓ} : {A : Type ℓ} → A → Type 0
Any a = Unit

abbrev pub OptAll : {A : Type 0} → (A → Type 0) → Option A → Type 0
OptAll W none = Unit
OptAll W (some a) = W a

get_reply-OptAll :
    (W : Doc → Type 0) (e : Option Entry)
    → ((x : Doc) → e ≡ some (text x) → W x)
    → Post (OptAll W) (get_reply e)
unfolding get_reply
get_reply-OptAll W none h = tt
get_reply-OptAll W (some (text x)) h = h x refl
get_reply-OptAll W (some (set s)) h = tt

module _ (R : Redis) (P : R.Db → Type 0) where
  -- The document that is read has what the invariant says of the key.
  pub Ensures-get_doc :
      (W : Doc → Type 0) (k : String)
      → ((d : R.Db) → P d → (x : Doc) → R.look d k ≡ some (text x) → W x)
      → Ensures R P (call (R.get k)) (OptAll W)
  Ensures-get_doc W k has =
      Ensures-call (OptAll W) (R.get k)
        (λ d p. rw (R.get_lem k d) (p, get_reply-OptAll W (R.look d k) (has d p)))

  pub Ensures-get : (k : String) → Ensures R P (call (R.get k)) Any
  Ensures-get k = Ensures-call Any (R.get k) (λ d p. rw (R.get_lem k d) (p, trivial-Post _))

  pub Ensures-smembers : (k : String) → Ensures R P (call (R.smembers k)) Any
  Ensures-smembers k =
      Ensures-call Any (R.smembers k) (λ d p. rw (R.smembers_lem k d) (p, trivial-Post _))

  pub Ensures-scard : (k : String) → Ensures R P (call (R.scard k)) Any
  Ensures-scard k = Ensures-call Any (R.scard k) (λ d p. rw (R.scard_lem k d) (p, trivial-Post _))

  module _ (t : Tame R P) where
    pub Ensures-expire : (k : String) → Ensures R P (call (R.expire k)) Any
    Ensures-expire k =
        Ensures-call Any (R.expire k) (λ d p. (t.expire_keeps k d p, trivial-Post (R.expire k d).0))

    pub Ensures-sadd : (k m : String) → Ensures R P (call (R.sadd k m)) Any
    Ensures-sadd k m =
        Ensures-call Any (R.sadd k m) (λ d p. (t.sadd_keeps k m d p, trivial-Post (R.sadd k m d).0))

    pub Ensures-srem : (k m : String) → Ensures R P (call (R.srem k m)) Any
    Ensures-srem k m =
        Ensures-call Any (R.srem k m) (λ d p. (t.srem_keeps k m d p, trivial-Post (R.srem k m d).0))
