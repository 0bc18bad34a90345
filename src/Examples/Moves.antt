-- ===== src/Examples/Moves.antt =====
-- Moves and resignations in the example game.
use cheese_kakao_talk_bot.Prelude.{
  ℕ, String, ◌==◌, ◌≡◌, refl, ap, Bool, true, List, [], ◌∷◌, some, Bool-cases, inl, inr, ◌⊎◌, arith,
}
use cheese_kakao_talk_bot.Text.{trim_space, to_lower}
use cheese_kakao_talk_bot.Documents.{Status, Game}
use cheese_kakao_talk_bot.Errors.{Error, ok, err}
use cheese_kakao_talk_bot.PvpChess.Moves.{
  play_body, reconstruct, last_move, player_color, still_in_room,
}
use cheese_kakao_talk_bot.PvpChess.Resign.{resign_body}
use cheese_kakao_talk_bot.PvpChess.Games.{in_room, get_active_game_by_user_in_room}
use cheese_kakao_talk_bot.PvpChess.Rules.{InTurn}
use cheese_kakao_talk_bot.PvpChess.Effects.{
  Follows, play_body-Follows, Resigned, resign_body-Resigned,
}
use cheese_kakao_talk_bot.PvpChess.Replay.{IsReplayable, IsCoherent, Unmade, play_body-IsReplayable}
use cheese_kakao_talk_bot.PvpChess.Stuck.{IsRefused, stuck_game, play_body-stuck}
use cheese_kakao_talk_bot.PvpChess.Keeps.{ActiveAnd, Ensures-get_active_game_by_user_in_room}
use cheese_kakao_talk_bot.Action.Ensures.{Ensures}
use cheese_kakao_talk_bot.Action.Commands.{OptAll}
use cheese_kakao_talk_bot.Redis.Memory.{memory}
use cheese_kakao_talk_bot.Examples.Chess.{
  same_char, lenient, strict, start_game, after_e4, resigned_game,
}

e4_played :
    play_body lenient same_char 5 (still_in_room " room1") "alice" " E2E4" 0 start_game
    ≡ ok after_e4
unfolding play_body still_in_room trim_space to_lower
e4_played = refl

play_body-Follows_example :
    (start_game.status ≡ Status.active)
    × (still_in_room " room1" start_game ≡ true)
    × InTurn start_game "alice"
    × Follows lenient same_char 5 " E2E4" start_game after_e4
play_body-Follows_example =
    play_body-Follows lenient same_char 5 (still_in_room " room1") "alice" " E2E4" 0 start_game
      after_e4 e4_played

bob_resigned : resign_body 6 (in_room "room2") "bob" after_e4 ≡ ok resigned_game
unfolding resign_body in_room trim_space
bob_resigned = refl

resign_body-Resigned_example :
    (in_room "room2" after_e4 ≡ true) × Resigned "bob" after_e4 resigned_game
resign_body-Resigned_example =
    resign_body-Resigned 6 (in_room "room2") "bob" after_e4 resigned_game bob_resigned

lenient-IsCoherent : IsCoherent lenient
unfolding last_move
lenient-IsCoherent = record {
  san_again = λ g g' s mv e f. elim (Bool-cases (s == "e4")) [
    | inl h ↦
        let k : Path (List String) ("e2e4" ∷ g) g' = ground (arith, e, h) in
        let m : mv ≡ "e2e4" = ground (arith, f, ap (last_move lenient) k) in rw m (ap some k)
    | inr h ↦ absurd (ground (arith, e, h))
  ];
}

play_body-IsReplayable_example :
    IsReplayable lenient after_e4 ⊎ Unmade lenient same_char 5 " E2E4" start_game
play_body-IsReplayable_example =
    play_body-IsReplayable lenient same_char 5 (still_in_room " room1") "alice" " E2E4" 0 start_game
      after_e4 lenient-IsCoherent e4_played

e5_refused : IsRefused strict same_char 5 "e2e5" start_game
unfolding reconstruct to_lower trim_space
e5_refused = record {
  board = [];
  mv = "e2e5";
  replays = refl;
  entered = λ h. absurd (cc);
  decodes = refl;
  refused = refl;
}

abbrev everywhere : Game → Bool
everywhere g = true

play_body-stuck_example :
    (play_body strict same_char 5 everywhere "alice" "e2e5" 0 start_game
      ≡ ok (stuck_game strict same_char 5 "e2e5" start_game e5_refused))
    × ((scope' : Game → Bool) (user' move' : String) (now' n' : ℕ)
        → (e : Error) × (play_body strict same_char now' scope' user' move' n'
              (stuck_game strict same_char 5 "e2e5" start_game e5_refused)
            ≡ err e))
unfolding player_color
play_body-stuck_example =
    play_body-stuck strict same_char 5 "e2e5" start_game e5_refused everywhere "alice" refl refl
      refl (λ h. absurd (cc))

get_active_game_by_user_in_room_example :
    Ensures memory
      (λ d. Unit {0})
      (get_active_game_by_user_in_room memory "alice" "room1")
      (OptAll (ActiveAnd memory (λ d. Unit {0}) (in_room (trim_space "room1"))))
get_active_game_by_user_in_room_example =
    Ensures-get_active_game_by_user_in_room memory (λ d. Unit {0}) "alice" "room1"
