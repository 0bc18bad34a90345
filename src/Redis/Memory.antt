-- ===== src/Redis/Memory.antt =====
-- A Redis server in memory: the assumptions of `Redis` can be met. It is the server of the
-- examples.
use cheese_kakao_talk_bot.Prelude.{
  String, ◌≡◌, refl, Bool, ◌&&◌, ◌==◌, List, Option, none, some, if◌then◌else◌,
}
use cheese_kakao_talk_bot.Documents.{Doc}
use cheese_kakao_talk_bot.Errors.{Result, ok, err}
use cheese_kakao_talk_bot.Redis.{
  Entry, text, Redis, is_none, get_reply, members, card_reply, set_reply, added, removed, arranged,
}

abbrev Keys : Type 0
Keys = String → Option Entry

abbrev store : String → Option Entry → Keys → Keys
store k x d j = if k == j then x else d j

abbrev reserve : Bool → String → Doc → Keys → Keys
reserve free k x d j = if free && (k == j) then some (text x) else d j

arranged-id : (r : Result (List String)) → r ≡ arranged (λ s. s) r
arranged-id (ok s) = refl
arranged-id (err e) = refl

abbrev pub memory : Redis
memory = record {
  Db = Keys;
  look = λ d k. d k;
  get = λ k d. (get_reply (d k), d);
  set = λ k x d. (ok tt, store k (some (text x)) d);
  set_nx = λ k x d. (ok (is_none (d k)), reserve (is_none (d k)) k x d);
  expire = λ k d. (ok tt, d);
  sadd = λ k m d. (set_reply (d k), store k (added m (d k)) d);
  srem = λ k m d. (set_reply (d k), store k (removed m (d k)) d);
  smembers = λ k d. (arranged (λ s. s) (members (d k)), d);
  scard = λ k d. (card_reply (d k), d);
  arrange = λ s. s;
  arrange-contains = λ s a. refl;
  get_lem = λ k d. refl;
  set_ok = λ k x d. refl;
  look-set = λ k x d j. refl;
  set_nx_ok = λ k x d. refl;
  look-set_nx = λ k x d j. refl;
  expire_ok = λ k d. refl;
  look-expire = λ k d j. refl;
  sadd_reply = λ k m d. refl;
  look-sadd = λ k m d j. refl;
  srem_reply = λ k m d. refl;
  look-srem = λ k m d j. refl;
  smembers_lem = λ k d. refl;
  scard_lem = λ k d. refl;
}

abbrev pub nothing : Keys
nothing k = none
