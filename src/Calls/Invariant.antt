-- ===== src/Calls/Invariant.antt =====
-- The invariants of the stored games over every history of calls, with other clients and network
-- faults in between.
use Prim.Native.Char.{Char}
use cheese_kakao_talk_bot.Prelude.{◌≡◌, Bool, true, List, [], ◌∷◌, All}
use cheese_kakao_talk_bot.Text.{trim_space}
use cheese_kakao_talk_bot.Documents.{Game, Doc, game, meta, blank, as_game}
use cheese_kakao_talk_bot.Errors.{Result, ok, err}
use cheese_kakao_talk_bot.Redis.{Redis}
use cheese_kakao_talk_bot.ChessLib.{ChessLib}
use cheese_kakao_talk_bot.Action.{World}
use cheese_kakao_talk_bot.Action.Ensures.{Holds, Post}
use cheese_kakao_talk_bot.Action.Stored.{AllDocs, AllDocs-Tame, AllDocs-set, AllDocs-set_nx}
use cheese_kakao_talk_bot.PvpChess.Create.{Fresh}
use cheese_kakao_talk_bot.PvpChess.Actions.{
  Playable, Ensures-play_move, Ensures-play_move_by_room, Ensures-resign, Ensures-resign_by_room,
}
use cheese_kakao_talk_bot.PvpChess.Effects.{
  WfGame, play_body-WfGame, resign_body-WfGame, new_game-WfGame, as_game-WfGame,
}
use cheese_kakao_talk_bot.PvpChan.Keeps.{Openable, Creatable, Ensures-make}
use cheese_kakao_talk_bot.PvpChan.Keeps.Joins.{Ensures-join}
use cheese_kakao_talk_bot.Calls.{
  Call, makes, joins, plays, plays_by_room, resigns, resigns_by_room, serve, run,
}

-- What a call has to satisfy for an invariant: the game that a join may create keeps it.
abbrev pub Allowed : (R : Redis) (P : R.Db → Type 0) → Openable R P → Call → Type 0
Allowed R P o (joins f room code user user_name) = Creatable R P f × o.Open (trim_space code)
Allowed R P o _ = Unit

module _ (C : ChessLib) (beyond : Char → Char) (R : Redis) (P : R.Db → Type 0) where
  serve-Holds :
      Playable C beyond R P
      → (o : Openable R P) → (c : Call) → Allowed R P o c
      → (w : World R) → Holds R P w
      → Holds R P (serve C beyond R c w)
  unfolding serve
  serve-Holds p o (makes draws room user user_name) a w h =
      ((Ensures-make R P o draws room user user_name).at w h).0
  serve-Holds p o (joins f room code user user_name) a w h =
      ((Ensures-join beyond R P o f a.0 room code user user_name a.1).at w h).0
  serve-Holds p o (plays now user move_str) a w h =
      ((Ensures-play_move C beyond R P p now user move_str).at w h).0
  serve-Holds p o (plays_by_room now user room move_str) a w h =
      ((Ensures-play_move_by_room C beyond R P p now user room move_str).at w h).0
  serve-Holds p o (resigns now user) a w h = ((Ensures-resign C beyond R P p now user).at w h).0
  serve-Holds p o (resigns_by_room now user room) a w h =
      ((Ensures-resign_by_room C beyond R P p now user room).at w h).0

  pub run-Holds :
      Playable C beyond R P
      → (o : Openable R P) → (cs : List Call) → All (Allowed R P o) cs
      → (w : World R) → Holds R P w
      → Holds R P (run C beyond R cs w)
  unfolding run
  run-Holds p o [] a w h = h
  run-Holds p o (c ∷ cs) a w h =
      run-Holds p o cs a.1 (serve C beyond R c w) (serve-Holds p o c a.0 w h)

-- A document that reads as a well-formed game.
abbrev pub WfDoc : Doc → Type 0
WfDoc x = WfGame (as_game x)

module _ (C : ChessLib) (beyond : Char → Char) (R : Redis) where
  WfDoc-game : (g : Game) → WfGame g → WfDoc (game g)
  unfolding as_game
  WfDoc-game g w = w

  WfDoc-Playable : Playable C beyond R (AllDocs R WfDoc)
  WfDoc-Playable = record {
    Known = λ key g. WfGame g;
    knows = λ key d p x e. p.at_key key x e;
    play_keeps = λ now scope user move_str n key cur next w e.
        AllDocs-set R WfDoc key (game next)
          (WfDoc-game next (play_body-WfGame C beyond now scope user move_str n cur next e w));
    resign_keeps = λ now scope user key cur next w e.
        AllDocs-set R WfDoc key (game next)
          (WfDoc-game next (resign_body-WfGame now scope user cur next e w));
  }

  pub opens : (r : Result Bool) → Post (λ won. won ≡ true → Unit {0}) r
  opens (ok won) = λ _. tt
  opens (err e) = tt

  WfDoc-Openable : Openable R (AllDocs R WfDoc)
  WfDoc-Openable = record {
    Open = λ code. Unit {0};
    tame = AllDocs-Tame R WfDoc;
    meta_keeps =
        λ code _ m. AllDocs-set R WfDoc _ (meta m) (as_game-WfGame (meta m) (λ g e. absurd (cc)));
    reserve_keeps = λ code d p.
        (AllDocs-set_nx R WfDoc _ blank (as_game-WfGame blank (λ g e. absurd (cc))) d p, opens _);
  }

  creatable : (f : Fresh) → Creatable R (AllDocs R WfDoc) f
  creatable f s origin resolve =
      AllDocs-set R WfDoc _ _ (WfDoc-game _ (new_game-WfGame f s origin resolve))

  All-Allowed : (cs : List Call) → All (Allowed R (AllDocs R WfDoc) WfDoc-Openable) cs
  unfolding WfDoc-Openable
  All-Allowed [] = tt
  All-Allowed (joins f room code user user_name ∷ cs) = ((creatable f, tt), All-Allowed cs)
  All-Allowed (makes _ _ _ _ ∷ cs) = (tt, All-Allowed cs)
  All-Allowed (plays _ _ _ ∷ cs) = (tt, All-Allowed cs)
  All-Allowed (plays_by_room _ _ _ _ ∷ cs) = (tt, All-Allowed cs)
  All-Allowed (resigns _ _ ∷ cs) = (tt, All-Allowed cs)
  All-Allowed (resigns_by_room _ _ _ ∷ cs) = (tt, All-Allowed cs)

  -- If every stored game is well formed, and other clients keep it so, then it is so after any
  -- sequence of calls, with any faults of the network.
  pub run-WfGame :
      (cs : List Call) (w : World R)
      → Holds R (AllDocs R WfDoc) w
      → AllDocs R WfDoc (run C beyond R cs w).db
  run-WfGame cs w h =
      (run-Holds C beyond R (AllDocs R WfDoc) WfDoc-Playable WfDoc-Openable cs (All-Allowed cs) w
        h).now
