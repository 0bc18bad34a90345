-- ===== src/Service/State.antt =====
-- What the service keeps outside itself, and calls of it. The cache (internal/service/cache) and
-- the repository are maps that a call reaches or not; its answer can get lost after it took
-- effect. The keys of sessions and of profiles have different prefixes: they are two maps.
use cheese_kakao_talk_bot.Prelude.{String, ◌==◌, List, [], ◌∷◌, Option, if◌then◌else◌}
use cheese_kakao_talk_bot.Presets.Types.{Floats}
use cheese_kakao_talk_bot.Presets.Registry.{Registry}
use cheese_kakao_talk_bot.Memrepo.{ChessProfile, Memrepo}
use cheese_kakao_talk_bot.Service.Types.{SessionPayload, Error, unavailable}

pub data Result (A : Type 0) : Type 0 where
  ok : A → Result A
  err : Error → Result A

-- What happens to a call of the cache or the database.
pub data Fate : Type 0 where
  sound dropped lost : Fate

abbrev pub Cache : Type 0 → Type 0
Cache V = String → Option V

abbrev pub put : {V : Type 0} → String → Option V → Cache V → Cache V
put k v c j = if k == j then v else c j

pub record Data (X : Floats) : Type 0 where
  pub sessions : Cache SessionPayload
  pub profiles : Cache ChessProfile
  pub repo : Memrepo
  pub registry : Registry X

-- No fate left means that calls succeed.
pub record Store (X : Floats) : Type 0 where
  pub content : Data X
  pub fates : List Fate

abbrev pub M : Floats → Type 0 → Type 0
M X A = Store X → Result A × Store X

module _ {X : Floats} {A : Type 0} where
  unfoldable pub pure : A → M X A
  pure a w = (ok a, w)

  unfoldable pub raise : Error → M X A
  raise e w = (err e, w)

  unfoldable pub lift : Result A → M X A
  lift r w = (r, w)

  -- `x, err := m`, with the error kept as a value
  unfoldable pub attempt : M X A → M X (Result A)
  attempt m w = let (r, w') = m w in (ok r, w')

  -- What the service does in its own memory.
  unfoldable pub local : (Data X → Result A × Data X) → M X A
  local f w = let (r, d) = f w.content in (r, record w { content = d })

  abbrev pub meet : Fate → (Data X → Result A × Data X) → M X A
  meet sound f w = let (r, d) = f w.content in (r, record w { content = d })
  meet dropped f w = (err unavailable, w)
  meet lost f w = let (r, d) = f w.content in (err unavailable, record w { content = d })

  abbrev pub call_at : List Fate → (Data X → Result A × Data X) → M X A
  call_at [] f w = meet sound f w
  call_at (t ∷ ts) f w = meet t f (record w { fates = ts })

  -- One call of the cache or of the database.
  unfoldable pub call : (Data X → Result A × Data X) → M X A
  call f w = call_at w.fates f w

module _ {X : Floats} {A B : Type 0} where
  abbrev pub continue : Result A → (A → M X B) → M X B
  continue (ok a) f w = f a w
  continue (err e) f w = (err e, w)

  infixl 10 ◌>>=◌ ◌>>◌
  unfoldable pub ◌>>=◌ : M X A → (A → M X B) → M X B
  unfolding pure raise lift attempt
  ◌>>=◌ m f w = let (r, w') = m w in continue r f w'

  abbrev pub ◌>>◌ : M X A → M X B → M X B
  m >> n = m >>= λ _. n
