-- ===== src/Redis.antt =====
-- The Redis server, through the commands of go-redis that the program sends. It is no part of the
-- repository: its database is abstract, and `Redis` states the documented replies and effects of
-- each command in terms of `look`, what a key holds.
pub mod Memory
use cheese_kakao_talk_bot.Prelude.{
  ℕ, String, ◌≡◌, Bool, true, false, ◌&&◌, ◌==◌, List, [], ◌∷◌, Option, none, some, length,
  contains, if◌then◌else◌,
}
use cheese_kakao_talk_bot.Documents.{Doc}
use cheese_kakao_talk_bot.Errors.{Result, ok, err, wrong_type}

-- A key holds a text (here a JSON document) or a set of texts. Redis drops a set that gets empty.
pub data Entry : Type 0 where
  text : Doc → Entry
  set : List String → Entry

abbrev pub is_none {ℓ} : {A : Type ℓ} → Option A → Bool
is_none none = true
is_none (some a) = false

unfoldable pub insert : String → List String → List String
insert m xs = if contains xs m then xs else m ∷ xs

unfoldable pub remove : String → List String → List String
remove m [] = []
remove m (x ∷ xs) = let rest = remove m xs in if x == m then rest else x ∷ rest

abbrev pub set_entry : List String → Option Entry
set_entry [] = none
set_entry (x ∷ xs) = some (set (x ∷ xs))

unfoldable pub get_reply : Option Entry → Result (Option Doc)
get_reply none = ok none
get_reply (some (text x)) = ok (some x)
get_reply (some (set s)) = err wrong_type

unfoldable pub members : Option Entry → Result (List String)
members none = ok []
members (some (text x)) = err wrong_type
members (some (set s)) = ok s

unfoldable pub card_reply : Option Entry → Result ℕ
card_reply none = ok 0
card_reply (some (text x)) = err wrong_type
card_reply (some (set s)) = ok (length s)

unfoldable pub set_reply : Option Entry → Result (Unit {0})
set_reply (some (text x)) = err wrong_type
set_reply (some (set s)) = ok tt
set_reply none = ok tt

unfoldable pub added : String → Option Entry → Option Entry
unfolding insert
added m none = some (set (m ∷ []))
added m (some (text x)) = some (text x)
added m (some (set s)) = some (set (insert m s))

unfoldable pub removed : String → Option Entry → Option Entry
unfolding remove
removed m none = none
removed m (some (text x)) = some (text x)
removed m (some (set s)) = set_entry (remove m s)

abbrev pub arranged : (List String → List String) → Result (List String) → Result (List String)
arranged f (ok s) = ok (f s)
arranged f (err e) = err e

pub record Redis : Type 1 where
  pub Db : Type 0
  pub look : Db → String → Option Entry
  pub get : String → Db → Result (Option Doc) × Db
  pub set : String → Doc → Db → Result (Unit {0}) × Db
  pub set_nx : String → Doc → Db → Result Bool × Db
  pub expire : String → Db → Result (Unit {0}) × Db
  pub sadd : String → String → Db → Result (Unit {0}) × Db
  pub srem : String → String → Db → Result (Unit {0}) × Db
  pub smembers : String → Db → Result (List String) × Db
  pub scard : String → Db → Result ℕ × Db
  -- SMEMBERS lists a set in an order of the server's own.
  pub arrange : List String → List String
  pub arrange-contains : (s : List String) (a : String) → contains (arrange s) a ≡ contains s a
  pub get_lem : (k : String) (d : Db) → get k d ≡ (get_reply (look d k), d)
  pub set_ok : (k : String) (x : Doc) (d : Db) → (set k x d).0 ≡ ok tt
  pub look-set :
      (k : String) (x : Doc) (d : Db) (j : String)
      → look (set k x d).1 j ≡ (if k == j then some (text x) else look d j)
  pub set_nx_ok : (k : String) (x : Doc) (d : Db) → (set_nx k x d).0 ≡ ok (is_none (look d k))
  pub look-set_nx :
      (k : String) (x : Doc) (d : Db) (j : String)
      → look (set_nx k x d).1 j
        ≡ (if is_none (look d k) && (k == j) then some (text x) else look d j)
  -- A key that was just given 24 hours still holds what it held.
  pub expire_ok : (k : String) (d : Db) → (expire k d).0 ≡ ok tt
  pub look-expire : (k : String) (d : Db) (j : String) → look (expire k d).1 j ≡ look d j
  pub sadd_reply : (k m : String) (d : Db) → (sadd k m d).0 ≡ set_reply (look d k)
  pub look-sadd :
      (k m : String) (d : Db) (j : String)
      → look (sadd k m d).1 j ≡ (if k == j then added m (look d k) else look d j)
  pub srem_reply : (k m : String) (d : Db) → (srem k m d).0 ≡ set_reply (look d k)
  pub look-srem :
      (k m : String) (d : Db) (j : String)
      → look (srem k m d).1 j ≡ (if k == j then removed m (look d k) else look d j)
  pub smembers_lem :
      (k : String) (d : Db) → smembers k d ≡ (arranged arrange (members (look d k)), d)
  pub scard_lem : (k : String) (d : Db) → scard k d ≡ (card_reply (look d k), d)
