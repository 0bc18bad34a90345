-- ===== src/Service/Triples.antt =====
-- Reasoning about calls of the single-player service. `Triple Fit P m Q R`: from data that have `P`,
-- whatever faults of the kinds `Fit` happen, `m` ends with a value and data that have `Q`, or with
-- an error and data that have `R`.
use cheese_kakao_talk_bot.Prelude.{
  ◌≡◌, ◌≢◌, refl, Bool, true, false, List, [], ◌∷◌, All, if◌then◌else◌,
}
use cheese_kakao_talk_bot.Presets.Types.{Floats}
use cheese_kakao_talk_bot.Service.Types.{Error}
use cheese_kakao_talk_bot.Service.State.{
  Result, ok, err, Fate, sound, dropped, lost, Data, Store, M, pure, raise, lift, attempt, local,
  meet, call_at, call, continue, ◌>>=◌,
}

abbrev pub Post : {D A : Type 0} → (A → D → Type 0) → (D → Type 0) → Result A → D → Type 0
Post Q R (ok a) d = Q a d
Post Q R (err e) d = R d

pub record Triple {X : Floats} (Fit : Fate → Type 0) (P : Data X → Type 0) {A : Type 0} (m : M X A)
    (Q : A → Data X → Type 0) (R : Data X → Type 0) : Type 0 where
  pub at :
      (w : Store X)
      → All Fit w.fates
      → P w.content
      → All Fit (m w).1.fates × Post Q R (m w).0 (m w).1.content

-- A value and data, each with its property.
pub record Both {D A : Type 0} (W : A → Type 0) (I : D → Type 0) (a : A) (d : D) : Type 0 where
  pub value : W a
  pub rest : I d

abbrev pub Fault : Fate → Type 0
Fault t = Unit

pub all_faults : (ts : List Fate) → All Fault ts
all_faults [] = tt
all_faults (t ∷ ts) = (tt, all_faults ts)

-- A fault after which the server did not act.
abbrev pub Unsent : Fate → Type 0
Unsent t = t ≢ lost

module _ {X : Floats} (Fit : Fate → Type 0) (P R : Data X → Type 0) {A : Type 0}
    (Q : A → Data X → Type 0) (f : Data X → Result A × Data X)
    (done : (d : Data X) → P d → Post Q R (f d).0 (f d).1)
    (unsent : Fit dropped → (d : Data X) → P d → R d)
    (unheard : Fit lost → (d : Data X) → P d → R (f d).1) where
  meet_at :
      (t : Fate) (w : Store X)
      → Fit t
      → All Fit w.fates
      → P w.content
      → All Fit (meet t f w).1.fates × Post Q R (meet t f w).0 (meet t f w).1.content
  meet_at sound w ft fs p = (fs, done w.content p)
  meet_at dropped w ft fs p = (fs, unsent ft w.content p)
  meet_at lost w ft fs p = (fs, unheard ft w.content p)

  call_keeps :
      (ts : List Fate) (w : Store X)
      → All Fit ts
      → All Fit w.fates
      → P w.content
      → All Fit (call_at ts f w).1.fates × Post Q R (call_at ts f w).0 (call_at ts f w).1.content
  call_keeps [] w h fs p = (fs, done w.content p)
  call_keeps (t ∷ ts) w h fs p = meet_at t (record w { fates = ts }) h.0 h.1 p

module _ {X : Floats} {Fit : Fate → Type 0} {P R : Data X → Type 0} {A : Type 0}
    {Q : A → Data X → Type 0} where
  pub Triple-pure : (a : A) → ((d : Data X) → P d → Q a d) → Triple Fit P (pure a) Q R
  unfolding pure
  Triple-pure a h = record { at = λ w f p. (f, h w.content p) }

  pub Triple-raise : (e : Error) → ((d : Data X) → P d → R d) → Triple Fit P (raise e) Q R
  unfolding raise
  Triple-raise e h = record { at = λ w f p. (f, h w.content p) }

  pub Triple-lift : (r : Result A) → ((d : Data X) → P d → Post Q R r d) → Triple Fit P (lift r) Q R
  unfolding lift
  Triple-lift r h = record { at = λ w f p. (f, h w.content p) }

  pub Triple-if :
      (b : Bool) (m n : M X A)
      → (b ≡ true → Triple Fit P m Q R)
      → (b ≡ false → Triple Fit P n Q R)
      → Triple Fit P (if b then m else n) Q R
  Triple-if true m n hm hn = hm refl
  Triple-if false m n hm hn = hn refl

  pub Triple-local :
      (f : Data X → Result A × Data X)
      → ((d : Data X) → P d → Post Q R (f d).0 (f d).1)
      → Triple Fit P (local f) Q R
  unfolding local
  Triple-local f h = record { at = λ w t p. (t, h w.content p) }

  pub Triple-call :
      (f : Data X → Result A × Data X)
      → ((d : Data X) → P d → Post Q R (f d).0 (f d).1)
      → (Fit dropped → (d : Data X) → P d → R d)
      → (Fit lost → (d : Data X) → P d → R (f d).1)
      → Triple Fit P (call f) Q R
  unfolding call
  Triple-call f done unsent unheard = record {
    at = λ w fs p. call_keeps Fit P R Q f done unsent unheard w.fates w fs fs p;
  }

module _ {X : Floats} {Fit : Fate → Type 0} {R : Data X → Type 0} {A B : Type 0}
    (Q : A → Data X → Type 0) {S : B → Data X → Type 0} where
  continue_at :
      (r : Result A) (f : A → M X B) (w : Store X)
      → ((a : A) → Triple Fit (Q a) (f a) S R)
      → All Fit w.fates
      → Post Q R r w.content
      → All Fit (continue r f w).1.fates × Post S R (continue r f w).0 (continue r f w).1.content
  continue_at (ok a) f w kf fs q = (kf a).at w fs q
  continue_at (err e) f w kf fs q = (fs, q)

module _ {X : Floats} {Fit : Fate → Type 0} {P R : Data X → Type 0} {A B : Type 0}
    {Q : A → Data X → Type 0} {S : B → Data X → Type 0} where
  pub Triple-bind :
      (m : M X A) (f : A → M X B)
      → Triple Fit P m Q R
      → ((a : A) → Triple Fit (Q a) (f a) S R)
      → Triple Fit P (m >>= f) S R
  unfolding ◌>>=◌
  Triple-bind m f km kf = record {
    at = λ w fs p. let (fs', q) = km.at w fs p in continue_at Q (m w).0 f (m w).1 kf fs' q;
  }

weaken_post :
    {D A : Type 0} (Q S : A → D → Type 0) (R T : D → Type 0) (r : Result A) (d : D)
    → ((a : A) → Q a d → S a d)
    → (R d → T d)
    → Post Q R r d
    → Post S T r d
weaken_post Q S R T (ok a) d hq hr q = hq a q
weaken_post Q S R T (err e) d hq hr q = hr q

module _ {X : Floats} {Fit : Fate → Type 0} {P R : Data X → Type 0} {A : Type 0}
    {Q : A → Data X → Type 0} where
  -- An error that is kept as a value.
  pub Triple-attempt :
      {R' : Data X → Type 0} (m : M X A)
      → Triple Fit P m Q R
      → Triple Fit P (attempt m) (Post Q R) R'
  unfolding attempt
  Triple-attempt m km = record { at = λ w fs p. km.at w fs p }

  pub Triple-weaken :
      {P' : Data X → Type 0} {S : A → Data X → Type 0} {T : Data X → Type 0} (m : M X A)
      → Triple Fit P m Q R
      → ((d : Data X) → P' d → P d)
      → ((a : A) (d : Data X) → Q a d → S a d)
      → ((d : Data X) → R d → T d)
      → Triple Fit P' m S T
  Triple-weaken {S = S} {T = T} m km hp hq hr = record {
    at = λ w fs p.
        let (fs', q) = km.at w fs (hp w.content p) in
        (
          fs',
          weaken_post Q S R T (m w).0 (m w).1.content (λ a. hq a (m w).1.content)
              (hr (m w).1.content) q,
        );
  }
