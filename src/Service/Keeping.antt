-- ===== src/Service/Keeping.antt =====
-- Invariants of the service's data: `Keeps Fit I m W` says that `m` keeps `I`, also when it fails,
-- and that a value of it has `W`.
use cheese_kakao_talk_bot.Prelude.{refl, ◌≡◌, Bool, true, false, if◌then◌else◌}
use cheese_kakao_talk_bot.Presets.Types.{Floats}
use cheese_kakao_talk_bot.Service.Types.{Error}
use cheese_kakao_talk_bot.Service.State.{
  Result, ok, err, Fate, Data, M, pure, raise, lift, attempt, local, call, ◌>>=◌,
}
use cheese_kakao_talk_bot.Service.Triples.{
  Post, Triple, Both, Triple-pure, Triple-raise, Triple-lift, Triple-if, Triple-local, Triple-call,
  Triple-bind, Triple-attempt, Triple-weaken,
}

abbrev pub Keeps :
    {X : Floats} (Fit : Fate → Type 0) (I : Data X → Type 0) {A : Type 0} (m : M X A)
    (W : A → Type 0)
    → Type 0
Keeps Fit I m W = Triple Fit I m (Both W I) I

-- A result whose value has `W`.
abbrev pub OfOk : {A : Type 0} → (A → Type 0) → Result A → Type 0
OfOk W (ok a) = W a
OfOk W (err e) = Unit

abbrev pub Any : {A : Type 0} → A → Type 0
Any a = Unit

pub OfOk-Any : {A : Type 0} (r : Result A) → OfOk Any r
OfOk-Any (ok a) = tt
OfOk-Any (err e) = tt

-- What a result has is its value.
pub OfOk-self : {A : Type 0} (r : Result A) → OfOk (λ a. r ≡ ok a) r
OfOk-self (ok a) = refl
OfOk-self (err e) = tt

post_lift :
    {D A : Type 0} (W : A → Type 0) (I : D → Type 0) (r : Result A) (d : D)
    → OfOk W r
    → I d
    → Post (Both W I) I r d
post_lift W I (ok a) d v i = record { value = v; rest = i }
post_lift W I (err e) d v i = i

post_attempt :
    {D A : Type 0} (W : A → Type 0) (I : D → Type 0) (r : Result A) (d : D)
    → Post (Both W I) I r d
    → Both (OfOk W) I r d
post_attempt W I (ok a) d b = record { value = b.value; rest = b.rest }
post_attempt W I (err e) d b = record { value = tt; rest = b }

module _ {X : Floats} {Fit : Fate → Type 0} {I : Data X → Type 0} {A : Type 0}
    {W : A → Type 0} where
  pub Keeps-pure : (a : A) → W a → Keeps Fit I (pure a) W
  Keeps-pure a v = Triple-pure a (λ d i. record { value = v; rest = i })

  pub Keeps-raise : (e : Error) → Keeps Fit I (raise e) W
  Keeps-raise e = Triple-raise e (λ d i. i)

  pub Keeps-lift : (r : Result A) → OfOk W r → Keeps Fit I (lift r) W
  Keeps-lift r v = Triple-lift r (λ d i. post_lift W I r d v i)

  pub Keeps-if :
      (b : Bool) (m n : M X A)
      → (b ≡ true → Keeps Fit I m W)
      → (b ≡ false → Keeps Fit I n W)
      → Keeps Fit I (if b then m else n) W
  Keeps-if b m n hm hn = Triple-if b m n hm hn

  pub Keeps-local :
      (f : Data X → Result A × Data X)
      → ((d : Data X) → I d → I (f d).1 × OfOk W (f d).0)
      → Keeps Fit I (local f) W
  Keeps-local f h = Triple-local f (λ d i. post_lift W I (f d).0 (f d).1 (h d i).1 (h d i).0)

  pub Keeps-call :
      (f : Data X → Result A × Data X)
      → ((d : Data X) → I d → I (f d).1 × OfOk W (f d).0)
      → Keeps Fit I (call f) W
  Keeps-call f h =
      Triple-call f (λ d i. post_lift W I (f d).0 (f d).1 (h d i).1 (h d i).0) (λ l d i. i)
        (λ l d i. (h d i).0)

  pub Keeps-attempt : (m : M X A) → Keeps Fit I m W → Keeps Fit I (attempt m) (OfOk W)
  Keeps-attempt m km =
      Triple-weaken (attempt m) (Triple-attempt m km) (λ d i. i) (post_attempt W I) (λ d i. i)

module _ {X : Floats} {Fit : Fate → Type 0} {I R : Data X → Type 0} {A B : Type 0} {W : A → Type 0}
    {S : B → Data X → Type 0} where
  with_value : (m : M X B) (a : A) → (W a → Triple Fit I m S R) → Triple Fit (Both W I a) m S R
  with_value m a k = record { at = λ w fs b. (k b.value).at w fs b.rest }

  -- What comes after a part that keeps the invariant may end it.
  pub Keeps-then :
      (m : M X A) (f : A → M X B)
      → Triple Fit I m (Both W I) R
      → ((a : A) → W a → Triple Fit I (f a) S R)
      → Triple Fit I (m >>= f) S R
  Keeps-then m f km kf = Triple-bind m f km (λ a. with_value (f a) a (kf a))
