-- ===== src/Action/Ensures.antt =====
-- Invariants of actions under interference. `Ensures P m Q`: if `P` holds of the database, and
-- what other clients do keeps `P`, then so it is after `m`, and a value that `m` returns has `Q`.
use cheese_kakao_talk_bot.Prelude.{◌≡◌, refl, Bool, true, false, List, [], ◌∷◌, All, if◌then◌else◌}
use cheese_kakao_talk_bot.Documents.{Row}
use cheese_kakao_talk_bot.Errors.{Error, Result, ok, err}
use cheese_kakao_talk_bot.Redis.{Redis}
use cheese_kakao_talk_bot.Action.{
  Fate, sound, dropped, lost, conflict, Event, World, M, pure, raise, lift, attempt, ◌>>=◌, call,
  call_at, deliver, run_all, exec, exec_at, commit, write_row, continue,
}

abbrev pub Post : {A : Type 0} → (A → Type 0) → Result A → Type 0
Post Q (ok a) = Q a
Post Q (err e) = Unit

pub trivial-Post : {A : Type 0} (r : Result A) → Post (λ _. Unit {0}) r
trivial-Post (ok a) = tt
trivial-Post (err e) = tt

-- What the others do keeps `P`.
abbrev pub Stable : (R : Redis) → (R.Db → Type 0) → List (Event R) → Type 0
Stable R P = All (λ e. (d : R.Db) → P d → P (e.before d))

pub record Holds (R : Redis) (P : R.Db → Type 0) (w : World R) : Type 0 where
  pub now : P w.db
  pub later : Stable R P w.events

pub record Ensures (R : Redis) (P : R.Db → Type 0) {A : Type 0} (m : M R A) (Q : A → Type 0)
    : Type 0 where
  pub at : (w : World R) → Holds R P w → Holds R P (m w).1 × Post Q (m w).0

module _ {R : Redis} {P : R.Db → Type 0} {A : Type 0} {Q : A → Type 0} where
  pub Ensures-pure : (a : A) → Q a → Ensures R P (pure a) Q
  unfolding pure
  Ensures-pure a q = record { at = λ w h. (h, q) }

  pub Ensures-raise : (e : Error) → Ensures R P (raise {A = A} e) Q
  unfolding raise
  Ensures-raise e = record { at = λ w h. (h, tt) }

  pub Ensures-lift : (r : Result A) → Post Q r → Ensures R P (lift r) Q
  unfolding lift
  Ensures-lift r q = record { at = λ w h. (h, q) }

  pub Ensures-if :
      (b : Bool) (m n : M R A)
      → (b ≡ true → Ensures R P m Q)
      → (b ≡ false → Ensures R P n Q)
      → Ensures R P (if b then m else n) Q
  Ensures-if true m n km kn = km refl
  Ensures-if false m n km kn = kn refl

-- One command keeps `P` if the server's part of it does, whatever its fate.
module _ {R : Redis} {P : R.Db → Type 0} {A : Type 0} (Q : A → Type 0) (f : R.Db → Result A × R.Db)
    (keep : (d : R.Db) → P d → P (f d).1 × Post Q (f d).0) where
  perform_at : (w : World R) → Holds R P w → Holds R P (deliver sound f w).1 × Post Q (f w.db).0
  perform_at w h = (record { now = (keep w.db h.now).0; later = h.later }, (keep w.db h.now).1)

  lose_at : (w : World R) → Holds R P w → Holds R P (deliver lost f w).1
  lose_at w h = record { now = (keep w.db h.now).0; later = h.later }

  deliver_at :
      (t : Fate) (w : World R)
      → Holds R P w
      → Holds R P (deliver t f w).1 × Post Q (deliver t f w).0
  unfolding raise
  deliver_at sound w h = perform_at w h
  deliver_at dropped w h = (h, tt)
  deliver_at lost w h = (lose_at w h, tt)
  deliver_at conflict w h = perform_at w h

  call_keeps :
      (es : List (Event R)) (w : World R)
      → P w.db
      → Stable R P es
      → Holds R P w
      → Holds R P (call_at es f w).1 × Post Q (call_at es f w).0
  call_keeps [] w p s h = perform_at w h
  call_keeps (e ∷ es) w p s h =
      deliver_at e.fate (record w { db = e.before w.db; events = es })
        (record { now = s.0 w.db p; later = s.1 })

  pub Ensures-call : Ensures R P (call f) Q
  unfolding call
  Ensures-call = record { at = λ w h. call_keeps w.events w h.now h.later h }

module _ {R : Redis} {P : R.Db → Type 0} where
  commit_at :
      (f : R.Db → Result (Unit {0}) × R.Db) (t : Fate) (before : R.Db → R.Db) (w : World R)
      → P (f w.db).1
      → ((d : R.Db) → P d → P (before d))
      → Holds R P w
      → Holds R P (commit t before f w).1
  commit_at f sound before w k s h = record { now = k; later = h.later }
  commit_at f lost before w k s h = record { now = k; later = h.later }
  commit_at f dropped before w k s h = record { now = s w.db h.now; later = h.later }
  commit_at f conflict before w k s h = record { now = s w.db h.now; later = h.later }

  exec_keeps :
      (f : R.Db → Result (Unit {0}) × R.Db) (es : List (Event R)) (w : World R)
      → P (f w.db).1
      → P w.db
      → Stable R P es
      → Holds R P w
      → Holds R P (exec_at es f w).1
  exec_keeps f [] w k p s h = record { now = k; later = h.later }
  exec_keeps f (e ∷ es) w k p s h =
      commit_at f e.fate e.before (record w { events = es }) k s.0 (record { now = p; later = s.1 })

  -- Under WATCH a transaction acts on the database as it was read.
  pub exec-Holds :
      (cs : List (R.Db → Result (Unit {0}) × R.Db)) (w : World R)
      → P (run_all cs w.db).1
      → Holds R P w
      → Holds R P (exec cs w).1
  unfolding exec
  exec-Holds cs w k h = exec_keeps (run_all cs) w.events w k h.now h.later h

  pub Ensures-exec :
      (cs : List (R.Db → Result (Unit {0}) × R.Db))
      → ((d : R.Db) → P d → P (run_all cs d).1)
      → Ensures R P (exec cs) (λ _. Unit)
  Ensures-exec cs keep = record {
    at = λ w h. (exec-Holds cs w (keep w.db h.now) h, trivial-Post (exec cs w).0);
  }

  pub Ensures-write_row : (r : Row) → Ensures R P (write_row r) (λ _. Unit)
  unfolding write_row
  Ensures-write_row r = record { at = λ w h. (record { now = h.now; later = h.later }, tt) }

module _ {R : Redis} {P : R.Db → Type 0} {A B : Type 0} {Q : A → Type 0} {S : B → Type 0} where
  continue_at :
      (r : Result A) (f : A → M R B) (w : World R)
      → Post Q r
      → ((a : A) → Q a → Ensures R P (f a) S)
      → Holds R P w
      → Holds R P (continue r f w).1 × Post S (continue r f w).0
  continue_at (ok a) f w q kf h = (kf a q).at w h
  continue_at (err e) f w q kf h = (h, tt)

  pub Ensures-bind :
      (m : M R A) (f : A → M R B)
      → Ensures R P m Q
      → ((a : A) → Q a → Ensures R P (f a) S)
      → Ensures R P (m >>= f) S
  unfolding ◌>>=◌
  Ensures-bind m f km kf = record {
    at = λ w h. let (k, q) = km.at w h in continue_at (m w).0 f (m w).1 q kf k;
  }

module _ {R : Redis} {P : R.Db → Type 0} {A : Type 0} {Q : A → Type 0} where
  pub Ensures-attempt : (m : M R A) → Ensures R P m Q → Ensures R P (attempt m) (λ r. Post Q r)
  unfolding attempt
  Ensures-attempt m km = record { at = λ w h. km.at w h }

  pub Ensures-weaken : (m : M R A) → Ensures R P m Q → Ensures R P m (λ _. Unit)
  Ensures-weaken m km = record { at = λ w h. ((km.at w h).0, trivial-Post (m w).0) }
