-- ===== src/Calls.antt =====
-- Histories of the bot: sequences of the calls that change PvP games and channels, as the command
-- handler of cmd/chess-bot makes them, and the invariants that every history keeps.
pub mod Keys
pub mod Invariant
pub mod Frozen
use Prim.Native.Char.{Char}
use cheese_kakao_talk_bot.Prelude.{ℕ, String, List, [], ◌∷◌}
use cheese_kakao_talk_bot.Redis.{Redis}
use cheese_kakao_talk_bot.ChessLib.{ChessLib}
use cheese_kakao_talk_bot.Action.{World}
use cheese_kakao_talk_bot.PvpChess.Create.{Fresh}
use cheese_kakao_talk_bot.PvpChess.Moves.{play_move, play_move_by_room}
use cheese_kakao_talk_bot.PvpChess.Resign.{resign, resign_by_room}
use cheese_kakao_talk_bot.PvpChan.Make.{Draw, make}
use cheese_kakao_talk_bot.PvpChan.Join.{join}

pub data Call : Type 0 where
  makes : (ℕ → Draw) → String → String → String → Call
  joins : Fresh → String → String → String → String → Call
  plays : ℕ → String → String → Call
  plays_by_room : ℕ → String → String → String → Call
  resigns : ℕ → String → Call
  resigns_by_room : ℕ → String → String → Call

module _ (C : ChessLib) (beyond : Char → Char) (R : Redis) where
  unfoldable pub serve : Call → World R → World R
  serve (makes draws room user user_name) w = (make R draws room user user_name w).1
  serve (joins f room code user user_name) w = (join beyond R f room code user user_name w).1
  serve (plays now user move_str) w = (play_move C beyond R now user move_str w).1
  serve (plays_by_room now user room move_str) w =
      (play_move_by_room C beyond R now user room move_str w).1
  serve (resigns now user) w = (resign beyond R now user w).1
  serve (resigns_by_room now user room) w = (resign_by_room beyond R now user room w).1

  unfoldable pub run : List Call → World R → World R
  run [] w = w
  run (c ∷ cs) w = run cs (serve c w)
