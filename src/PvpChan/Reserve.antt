-- ===== src/PvpChan/Reserve.antt =====
-- Make writes no document over another one (internal/pvpchan/manager.go, SETNX).
use cheese_kakao_talk_bot.Prelude.{ℕ, String, ◌≡◌, ◌≢◌, true, some, arith}
use cheese_kakao_talk_bot.Documents.{Doc, meta, blank}
use cheese_kakao_talk_bot.Redis.{Redis, text}
use cheese_kakao_talk_bot.Action.{World}
use cheese_kakao_talk_bot.Action.Ensures.{Holds, Post}
use cheese_kakao_talk_bot.Action.Stored.{Stores, Stores-Tame, Stores-set_ne, Stores-set_nx}
use cheese_kakao_talk_bot.PvpChan.Store.{key_meta}
use cheese_kakao_talk_bot.PvpChan.Make.{Draw, make}
use cheese_kakao_talk_bot.PvpChan.Keeps.{Openable, Ensures-make}

module _ (R : Redis) (k : String) (x : Doc) where
  -- A key that SETNX has won held nothing, so it is not one that holds a document.
  reserved :
      (code : String) (d : R.Db)
      → Stores R k x d
      → Post (λ won. won ≡ true → key_meta code ≢ k) (R.set_nx (key_meta code) blank d).0
  reserved code d p =
      rw (R.set_nx_ok (key_meta code) blank d) (λ won same. ground (arith, won, p.here, same))

  Stores-Openable : Openable R (Stores R k x)
  Stores-Openable = record {
    Open = λ code. key_meta code ≢ k;
    tame = Stores-Tame R k x;
    meta_keeps = λ code ne m. Stores-set_ne R k x (key_meta code) (meta m) ne;
    reserve_keeps = λ code d p. (Stores-set_nx R k x (key_meta code) blank d p, reserved code d p);
  }

  -- Whatever document is stored, under whatever key, Make leaves it there, also when a code is
  -- drawn that is in use, commands fail, or other clients (which leave it too) act in between.
  pub make-Stores :
      (draws : ℕ → Draw) (room user user_name : String) (w : World R)
      → Holds R (Stores R k x) w
      → R.look (make R draws room user user_name w).1.db k ≡ some (text x)
  make-Stores draws room user user_name w h =
      ((Ensures-make R (Stores R k x) Stores-Openable draws room user user_name).at w h).0.now.here
