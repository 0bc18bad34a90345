-- ===== src/Calls/Frozen.antt =====
-- A game that is over stays as it is, over every history of calls.
use Prim.Native.Char.{Char}
use cheese_kakao_talk_bot.Prelude.{String, ◌≡◌, ◌≢◌, sym, ap, ◌∙◌, List, [], ◌∷◌, some, All, arith}
use cheese_kakao_talk_bot.Documents.{Status, Game, Doc, game, meta, blank, as_game}
use cheese_kakao_talk_bot.Redis.{Redis, text}
use cheese_kakao_talk_bot.ChessLib.{ChessLib}
use cheese_kakao_talk_bot.Action.{World}
use cheese_kakao_talk_bot.Action.Ensures.{Holds}
use cheese_kakao_talk_bot.Action.Stored.{Stores, Stores-Tame, Stores-set_ne, Stores-set_nx}
use cheese_kakao_talk_bot.PvpChess.Games.{game_key}
use cheese_kakao_talk_bot.PvpChess.Actions.{Playable}
use cheese_kakao_talk_bot.PvpChess.Effects.{play_body-Follows, resign_body-Resigned}
use cheese_kakao_talk_bot.PvpChan.Keeps.{Openable}
use cheese_kakao_talk_bot.Calls.{
  Call, makes, joins, plays, plays_by_room, resigns, resigns_by_room, run,
}
use cheese_kakao_talk_bot.Calls.Keys.{meta-ne-game}
use cheese_kakao_talk_bot.Calls.Invariant.{Allowed, run-Holds, opens}

-- A new game of the call does not take the key.
abbrev pub Avoids : String → Call → Type 0
Avoids key (joins f room code user user_name) = game_key f.id ≢ key
Avoids key _ = Unit

module _ (C : ChessLib) (beyond : Char → Char) (R : Redis) (i : String) (g : Game) where
  abbrev Kept : R.Db → Type 0
  Kept = Stores R (game_key i) (game g)

  known :
      (key : String) (d : R.Db)
      → Kept d
      → (x : Doc) → R.look d key ≡ some (text x)
      → key ≡ game_key i
      → as_game x ≡ g
  unfolding as_game
  known key d p x e k = ground (arith, p.here, e, k)

  -- A write to another key, or one that would follow from the game itself being active.
  keeps :
      (key : String) (cur next : Game)
      → (key ≡ game_key i → cur ≡ g)
      → cur.status ≡ Status.active
      → g.status ≢ Status.active
      → (d : R.Db) → Kept d
      → Kept (R.set key (game next) d).1
  keeps key cur next same active over =
      Stores-set_ne R (game_key i) (game g) key (game next)
        (λ e. over (sym (ap (λ (h : Game). h.status) (same e)) ∙ active))

  module _ (over : g.status ≢ Status.active) where
    Kept-Playable : Playable C beyond R Kept
    Kept-Playable = record {
      Known = λ key cur. key ≡ game_key i → cur ≡ g;
      knows = known;
      play_keeps = λ now scope user move_str n key cur next same e.
          keeps key cur next same
            (play_body-Follows C beyond now scope user move_str n cur next e).0 over;
      resign_keeps = λ now scope user key cur next same e.
          keeps key cur next same (resign_body-Resigned now scope user cur next e).1.was_active
            over;
    }

  Kept-Openable : Openable R Kept
  Kept-Openable = record {
    Open = λ code. Unit {0};
    tame = Stores-Tame R (game_key i) (game g);
    meta_keeps = λ code _ m. Stores-set_ne R (game_key i) (game g) _ (meta m) (meta-ne-game code i);
    reserve_keeps =
        λ code d p. (Stores-set_nx R (game_key i) (game g) _ blank d p, opens C beyond R _);
  }

  Avoids-Allowed : (c : Call) → Avoids (game_key i) c → Allowed R Kept Kept-Openable c
  unfolding Kept-Openable
  Avoids-Allowed (joins f room code user user_name) a =
      ((λ s origin resolve. Stores-set_ne R (game_key i) (game g) _ _ a), tt)
  Avoids-Allowed (makes _ _ _ _) a = tt
  Avoids-Allowed (plays _ _ _) a = tt
  Avoids-Allowed (plays_by_room _ _ _ _) a = tt
  Avoids-Allowed (resigns _ _) a = tt
  Avoids-Allowed (resigns_by_room _ _ _) a = tt

  All-Allowed :
      (cs : List Call) → All (Avoids (game_key i)) cs → All (Allowed R Kept Kept-Openable) cs
  All-Allowed [] a = tt
  All-Allowed (c ∷ cs) a = (Avoids-Allowed c a.0, All-Allowed cs a.1)

  -- A game that is stored and no longer active is still stored, unchanged, after any sequence of
  -- calls that take no id of it for a new game, if other clients leave it; faults of the network
  -- change nothing in that.
  pub run-frozen :
      (cs : List Call) (w : World R)
      → g.status ≢ Status.active
      → All (Avoids (game_key i)) cs
      → Holds R Kept w
      → R.look (run C beyond R cs w).db (game_key i) ≡ some (text (game g))
  run-frozen cs w over a h =
      (run-Holds C beyond R Kept (Kept-Playable over) Kept-Openable cs (All-Allowed cs a) w
        h).now.here
