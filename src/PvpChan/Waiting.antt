-- ===== src/PvpChan/Waiting.antt =====
-- ListLobby lists waiting channels only (internal/pvpchan/store_redis.go).
use cheese_kakao_talk_bot.Prelude.{
  String, ◌≡◌, true, List, [], ◌∷◌, Option, none, some, inl, inr, All, Bool-cases,
}
use cheese_kakao_talk_bot.Documents.{ChannelMeta}
use cheese_kakao_talk_bot.Errors.{Result, ok, err}
use cheese_kakao_talk_bot.Redis.{Redis}
use cheese_kakao_talk_bot.Action.Ensures.{Ensures, Ensures-pure, Ensures-bind, Ensures-attempt}
use cheese_kakao_talk_bot.Action.Commands.{Any, Ensures-get, Ensures-smembers}
use cheese_kakao_talk_bot.PvpChan.Store.{
  key_meta, key_lobby, is_lobby, load_meta, keep_waiting, load_waiting, list_lobby,
}

abbrev pub IsWaiting : ChannelMeta → Type 0
IsWaiting m = is_lobby m.state ≡ true

keep_waiting-IsWaiting :
    (R : Redis) (r : Result (Option ChannelMeta)) (ms : List ChannelMeta)
    → All IsWaiting ms
    → All IsWaiting (keep_waiting R r ms)
keep_waiting-IsWaiting R (ok (some m)) ms a = elim (Bool-cases (is_lobby m.state)) [
  | inl e ↦ rw e (e, a)
  | inr e ↦ rw e a
]
keep_waiting-IsWaiting R (ok none) ms a = a
keep_waiting-IsWaiting R (err e) ms a = a

module _ (R : Redis) (P : R.Db → Type 0) where
  Ensures-load_meta : (code : String) → Ensures R P (load_meta R code) Any
  unfolding load_meta
  Ensures-load_meta code =
      Ensures-bind _ _ (Ensures-get R P (key_meta code)) (λ _ _. Ensures-pure _ tt)

  Ensures-load_waiting : (codes : List String) → Ensures R P (load_waiting R codes) (All IsWaiting)
  unfolding load_waiting
  Ensures-load_waiting [] = Ensures-pure _ tt
  Ensures-load_waiting (c ∷ cs) = Ensures-bind _ _ (Ensures-attempt _ (Ensures-load_meta c)) (λ r _.
      Ensures-bind _ _ (Ensures-load_waiting cs)
        (λ ms a. Ensures-pure _ (keep_waiting-IsWaiting R r ms a)))

  -- ListLobby lists only channels that were waiting when they were read, also when the lobby index
  -- names channels that have started or gone, and it keeps every invariant `P` that the other
  -- clients keep, whatever the faults of the network.
  pub Ensures-list_lobby : Ensures R P (list_lobby R) (All IsWaiting)
  unfolding list_lobby
  Ensures-list_lobby =
      Ensures-bind _ _ (Ensures-smembers R P key_lobby) (λ codes _. Ensures-load_waiting codes)
