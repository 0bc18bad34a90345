-- ===== src/Action.antt =====
-- Go code that talks to Redis: state and errors, with the other clients and the network as a list
-- of events. Each command takes the next event: what other clients did to the database before it,
-- and whether the command was sent and answered. No event left means that nothing interferes.
pub mod Ensures
pub mod Commands
pub mod Stored
pub mod Answers
use cheese_kakao_talk_bot.Prelude.{String, Bool, List, [], ◌∷◌, Option, ℕ}
use cheese_kakao_talk_bot.Documents.{Doc, Row}
use cheese_kakao_talk_bot.Errors.{Error, Result, ok, err, network, tx_failed}
use cheese_kakao_talk_bot.Redis.{Redis}

-- `dropped`: the command did not reach the server. `lost`: it ran, and its reply was lost.
-- `conflict`: a watched key was touched, so that EXEC is refused.
pub data Fate : Type 0 where
  sound dropped lost conflict : Fate

pub record Event (R : Redis) : Type 0 where
  pub before : R.Db → R.Db
  pub fate : Fate

-- `rows` are the rows that were written to pvp_games, the latest first.
pub record World (R : Redis) : Type 0 where
  pub db : R.Db
  pub events : List (Event R)
  pub rows : List Row

abbrev pub M : Redis → Type 0 → Type 0
M R A = World R → Result A × World R

module _ {R : Redis} {A : Type 0} where
  unfoldable pub pure : A → M R A
  pure a w = (ok a, w)

  unfoldable pub raise : Error → M R A
  raise e w = (err e, w)

  unfoldable pub lift : Result A → M R A
  lift r w = (r, w)

  -- `x, err := m`, with the error kept as a value
  unfoldable pub attempt : M R A → M R (Result A)
  attempt m w = let (r, w') = m w in (ok r, w')

module _ {R : Redis} {A B : Type 0} where
  abbrev pub continue : Result A → (A → M R B) → M R B
  continue (ok a) f w = f a w
  continue (err e) f w = (err e, w)

  infixl 10 ◌>>=◌ ◌>>◌
  unfoldable pub ◌>>=◌ : M R A → (A → M R B) → M R B
  unfolding pure raise lift attempt
  ◌>>=◌ m f w = let (r, w') = m w in continue r f w'

  abbrev pub ◌>>◌ : M R A → M R B → M R B
  m >> n = m >>= λ _. n

module _ {R : Redis} {A : Type 0} where
  abbrev pub perform : (R.Db → Result A × R.Db) → M R A
  perform f w = let (r, d) = f w.db in (r, record w { db = d })

  abbrev pub lose : (R.Db → Result A × R.Db) → M R A
  lose f w = let (r, d) = f w.db in (err network, record w { db = d })

  abbrev pub deliver : Fate → (R.Db → Result A × R.Db) → M R A
  deliver sound f = perform f
  deliver dropped f = raise network
  deliver lost f = lose f
  deliver conflict f = perform f

  abbrev pub call_at : List (Event R) → (R.Db → Result A × R.Db) → M R A
  call_at [] f w = perform f w
  call_at (e ∷ es) f w = deliver e.fate f (record w { db = e.before w.db; events = es })

  -- One command.
  unfoldable pub call : (R.Db → Result A × R.Db) → M R A
  unfolding raise
  call f w = call_at w.events f w

abbrev pub first_error : Result (Unit {0}) → Result (Unit {0}) → Result (Unit {0})
first_error (err e) r = err e
first_error (ok _) r = r

-- The commands of a transaction all run; its error is that of the first that failed.
unfoldable pub run_all : {D : Type 0} → List (D → Result (Unit {0}) × D) → D → Result (Unit {0}) × D
run_all [] d = (ok tt, d)
run_all (c ∷ cs) d = let (r, d1) = c d in let (rest, d2) = run_all cs d1 in (first_error r rest, d2)

module _ {R : Redis} where
  abbrev pub commit : Fate → (R.Db → R.Db) → (R.Db → Result (Unit {0}) × R.Db) → M R (Unit {0})
  commit sound before f w = perform f w
  commit lost before f w = lose f w
  commit dropped before f w = (err network, record w { db = before w.db })
  commit conflict before f w = (err tx_failed, record w { db = before w.db })

  abbrev pub exec_at : List (Event R) → (R.Db → Result (Unit {0}) × R.Db) → M R (Unit {0})
  exec_at [] f w = perform f w
  exec_at (e ∷ es) f w = commit e.fate e.before f (record w { events = es })

  -- TxPipeline().Exec under WATCH: it runs only if no other client touched a watched key since.
  -- What others did to other keys meanwhile stands in the event before the first read.
  unfoldable pub exec : List (R.Db → Result (Unit {0}) × R.Db) → M R (Unit {0})
  unfolding run_all
  exec cs w = exec_at w.events (run_all cs) w

  -- A row of pvp_games is written.
  unfoldable pub write_row : Row → M R (Unit {0})
  write_row r w = (ok tt, record w { rows = r ∷ w.rows })
