-- ===== src/Examples/Histories.antt =====
-- Histories of calls on a Redis in memory, with other clients and faults of the network.
use cheese_kakao_talk_bot.Prelude.{
  ℕ, String, ◌==◌, ◌≡◌, ◌≢◌, refl, ap, subst, true, false, List, [], ◌∷◌, none, some, All,
  Bool-cases, inl, inr, arith, if◌then◌else◌,
}
use cheese_kakao_talk_bot.Text.{trim_space}
use cheese_kakao_talk_bot.Documents.{Doc, game, blank, as_game}
use cheese_kakao_talk_bot.Redis.{text}
use cheese_kakao_talk_bot.Redis.Memory.{memory}
use cheese_kakao_talk_bot.Action.{World, Event, dropped, lost}
use cheese_kakao_talk_bot.Action.Ensures.{Holds}
use cheese_kakao_talk_bot.Action.Stored.{AllDocs, Stores}
use cheese_kakao_talk_bot.PvpChess.Games.{game_key}
use cheese_kakao_talk_bot.PvpChess.Create.{Fresh}
use cheese_kakao_talk_bot.PvpChess.Effects.{WfGame}
use cheese_kakao_talk_bot.PvpChan.Make.{Draw, make}
use cheese_kakao_talk_bot.PvpChan.Reserve.{make-Stores}
use cheese_kakao_talk_bot.Calls.{Call, makes, joins, plays, resigns, run}
use cheese_kakao_talk_bot.Calls.Invariant.{WfDoc, run-WfGame}
use cheese_kakao_talk_bot.Calls.Frozen.{Avoids, run-frozen}
use cheese_kakao_talk_bot.Examples.Chess.{same_char, lenient, start_game, resigned_game}

-- One document under one key.
abbrev holding : String → Doc → memory.Db
holding k x j = if k == j then some (text x) else none

-- The first command is not answered, the second not sent.
abbrev faults : List (Event memory)
faults = record { before = λ d. d; fate = lost } ∷ record { before = λ d. d; fate = dropped } ∷ []

abbrev world_of : String → Doc → World memory
world_of k x = record { db = holding k x; events = faults; rows = [] }

abbrev fresh_game : Fresh
fresh_game = record { id = "g2"; coin = some 1; created = 3; updated = 3 }

abbrev history : List Call
history =
    plays 5 "alice" "e2e4"
    ∷ makes (λ i. record { bytes = some (0 ∷ 0 ∷ 0 ∷ 0 ∷ 0 ∷ i ∷ []); instant = 7 }) "room1" "carol"
        "Carol"
    ∷ joins fresh_game "room2" "CH-AAAAAA" "dave" "Dave"
    ∷ resigns 9 "bob"
    ∷ []

holding-same : (k j : String) (x y : Doc) → holding k x j ≡ some (text y) → x ≡ y
holding-same k j x y h = elim (Bool-cases (k == j)) [
  | inl e ↦ ground (arith, h, e)
  | inr e ↦ absurd (ground (arith, h, e))
]

start-WfGame : WfGame start_game
start-WfGame = ground arith

start-Holds : Holds memory (AllDocs memory WfDoc) (world_of "pvp:game:g1" (game start_game))
unfolding as_game
start-Holds = record {
  now = record {
    at_key = λ k x h. subst WfDoc (holding-same "pvp:game:g1" k (game start_game) x h) start-WfGame;
  };
  later = ((λ d p. p), ((λ d p. p), tt));
}

run-WfGame_example :
    AllDocs memory WfDoc
      (run lenient same_char memory history (world_of "pvp:game:g1" (game start_game))).db
run-WfGame_example =
    run-WfGame lenient same_char memory history (world_of "pvp:game:g1" (game start_game))
      start-Holds

g1-Holds :
    Holds memory
      (Stores memory (game_key "g1") (game resigned_game))
      (world_of "pvp:game:g1" (game resigned_game))
unfolding game_key trim_space
g1-Holds = record { now = record { here = refl }; later = ((λ d p. p), ((λ d p. p), tt)) }

new_id : game_key "g2" ≢ game_key "g1"
unfolding game_key trim_space
new_id e = let differ : false ≡ true = ap (λ s. s == "pvp:game:g1") e in absurd (cc)

history-Avoids : All (Avoids (game_key "g1")) history
unfolding game_key trim_space
history-Avoids = (tt, (tt, (new_id, (tt, tt))))

run-frozen_example :
    memory.look
      (run lenient same_char memory history (world_of "pvp:game:g1" (game resigned_game))).db
      (game_key "g1")
    ≡ some (text (game resigned_game))
run-frozen_example =
    run-frozen lenient same_char memory "g1" resigned_game history
      (world_of "pvp:game:g1" (game resigned_game)) (λ e. absurd (cc)) history-Avoids g1-Holds

taken_code : Holds memory (Stores memory "ch:CH-AAAAAA" blank) (world_of "ch:CH-AAAAAA" blank)
taken_code = record { now = record { here = refl }; later = ((λ d p. p), ((λ d p. p), tt)) }

-- The first code that is drawn is taken.
abbrev draws : ℕ → Draw
draws i = record { bytes = some (0 ∷ 0 ∷ 0 ∷ 0 ∷ 0 ∷ i ∷ []); instant = 7 }

make-Stores_example :
    memory.look
      (make memory draws "room1" "carol" "Carol" (world_of "ch:CH-AAAAAA" blank)).1.db
      "ch:CH-AAAAAA"
    ≡ some (text blank)
make-Stores_example =
    make-Stores memory "ch:CH-AAAAAA" blank draws "room1" "carol" "Carol"
      (world_of "ch:CH-AAAAAA" blank) taken_code
