-- ===== src/Examples/Channels.antt =====
-- A channel with one participant, which two users try to enter.
use cheese_kakao_talk_bot.Prelude.{
  ◌==◌, ◌≡◌, ◌≢◌, ap, true, false, [], ◌∷◌, All, none, some, arith, if◌then◌else◌,
}
use cheese_kakao_talk_bot.Text.{trim_space}
use cheese_kakao_talk_bot.Redis.{set}
use cheese_kakao_talk_bot.Redis.Memory.{memory}
use cheese_kakao_talk_bot.Action.{World, sound, conflict}
use cheese_kakao_talk_bot.Action.Ensures.{Holds, Ensures}
use cheese_kakao_talk_bot.PvpChan.Store.{list_lobby, key_participants, key_user_idx, key_meta}
use cheese_kakao_talk_bot.PvpChan.Join.{enter}
use cheese_kakao_talk_bot.PvpChan.Waiting.{IsWaiting, Ensures-list_lobby}
use cheese_kakao_talk_bot.PvpChan.Capacity.{AtMostTwo, enter-AtMostTwo}
use cheese_kakao_talk_bot.Examples.Chess.{same_char}

-- Carol waits; the transaction is undone once by another client.
abbrev waiting : World memory
waiting = record {
  db = λ j. if "ch:CH-AAAAAA:participants" == j then some (set ("carol" ∷ [])) else none;
  events =
      record { before = λ d. d; fate = sound } ∷ record { before = λ d. d; fate = conflict } ∷ [];
  rows = [];
}

one_waits : Holds memory (AtMostTwo same_char memory "CH-AAAAAA") waiting
unfolding key_participants key_meta trim_space
one_waits = record { now = record { bound = omega arith }; later = ((λ d p. p), ((λ d p. p), tt)) }

dave-apart : key_user_idx "dave" ≢ key_participants "CH-AAAAAA"
unfolding key_user_idx key_participants key_meta trim_space
dave-apart e =
    let differ : false ≡ true = ap (λ s. s == "ch:CH-AAAAAA:participants") e in absurd (cc)

enter-AtMostTwo_example :
    AtMostTwo same_char memory "CH-AAAAAA"
      (enter same_char memory "CH-AAAAAA" "room2" "dave" waiting).1.db
enter-AtMostTwo_example =
    enter-AtMostTwo same_char memory "CH-AAAAAA" "room2" "dave" dave-apart waiting one_waits

list_lobby_example : Ensures memory (λ d. Unit {0}) (list_lobby memory) (All IsWaiting)
list_lobby_example = Ensures-list_lobby memory (λ d. Unit {0})
