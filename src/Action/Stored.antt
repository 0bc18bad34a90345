-- ===== src/Action/Stored.antt =====
-- Documents in the database: what holds of all of them, and that a key holds one. The commands on
-- sets keep both.
use cheese_kakao_talk_bot.Prelude.{String, ◌≡◌, ◌≢◌, sym, ◌∙◌, Option, none, some, arith, eq_iff}
use cheese_kakao_talk_bot.Documents.{Doc}
use cheese_kakao_talk_bot.Redis.{Redis, Entry, text, set, added, removed}
use cheese_kakao_talk_bot.Action.Commands.{Tame}

-- Sets hold no documents.
added_text :
    (m : String) (e : Option Entry) (x : Doc) → added m e ≡ some (text x) → e ≡ some (text x)
unfolding added
added_text m none x h = absurd (ground arith)
added_text m (some (text y)) x h = h
added_text m (some (set s)) x h = absurd (ground arith)

removed_text :
    (m : String) (e : Option Entry) (x : Doc) → removed m e ≡ some (text x) → e ≡ some (text x)
unfolding removed
removed_text m none x h = h
removed_text m (some (text y)) x h = h
removed_text m (some (set s)) x h = absurd (ground arith)

module _ (R : Redis) where
  -- Every document that is stored under any key has `W`.
  pub record AllDocs (W : Doc → Type 0) (d : R.Db) : Type 0 where
    pub at_key : (k : String) (x : Doc) → R.look d k ≡ some (text x) → W x

  pub AllDocs-Tame : (W : Doc → Type 0) → Tame R (AllDocs W)
  AllDocs-Tame W = record {
    expire_keeps =
        λ k d p. record { at_key = λ j x h. p.at_key j x (sym (R.look-expire k d j) ∙ h) };
    sadd_keeps = λ k m d p. record {
      at_key = λ j x h.
          ground
            (arith, R.look-sadd k m d j, p.at_key k x, p.at_key j x, added_text m (R.look d k) x);
    };
    srem_keeps = λ k m d p. record {
      at_key = λ j x h.
          ground
            (arith, R.look-srem k m d j, p.at_key k x, p.at_key j x, removed_text m (R.look d k) x);
    };
  }

  pub AllDocs-set :
      (W : Doc → Type 0) (k : String) (x : Doc)
      → W x
      → (d : R.Db) → AllDocs W d
      → AllDocs W (R.set k x d).1
  AllDocs-set W k x w d p = record {
    at_key = λ j y h. ground (arith, R.look-set k x d j, p.at_key j y);
  }

  pub AllDocs-set_nx :
      (W : Doc → Type 0) (k : String) (x : Doc)
      → W x
      → (d : R.Db) → AllDocs W d
      → AllDocs W (R.set_nx k x d).1
  AllDocs-set_nx W k x w d p = record {
    at_key = λ j y h. ground (arith, R.look-set_nx k x d j, p.at_key j y);
  }

  -- A key holds a given document.
  pub record Stores (k : String) (x : Doc) (d : R.Db) : Type 0 where
    pub here : R.look d k ≡ some (text x)

  pub Stores-Tame : (k : String) (x : Doc) → Tame R (Stores k x)
  unfolding added removed
  Stores-Tame k x = record {
    expire_keeps = λ j d p. record { here = R.look-expire j d k ∙ p.here };
    sadd_keeps = λ j m d p. record { here = ground (arith, R.look-sadd j m d k, eq_iff j k) };
    srem_keeps = λ j m d p. record { here = ground (arith, R.look-srem j m d k, eq_iff j k) };
  }

  pub Stores-set_ne :
      (k : String) (x : Doc) (j : String) (y : Doc)
      → j ≢ k
      → (d : R.Db) → Stores k x d
      → Stores k x (R.set j y d).1
  Stores-set_ne k x j y ne d p = record { here = ground (arith, R.look-set j y d k, eq_iff j k) }

  -- A key that is reserved is one that held nothing.
  pub Stores-set_nx :
      (k : String) (x : Doc) (j : String) (y : Doc) (d : R.Db)
      → Stores k x d
      → Stores k x (R.set_nx j y d).1
  Stores-set_nx k x j y d p = record { here = ground (arith, R.look-set_nx j y d k, eq_iff j k) }
