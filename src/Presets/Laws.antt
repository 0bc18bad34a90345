-- ===== src/Presets/Laws.antt =====
-- Laws of the validation: what normalised tokens pass, and that no read is out of bounds.
use Prim.Native.Char.{Char}
use cheese_kakao_talk_bot.Prelude.{
  ℕ, ◌+◌, String, Bool, true, false, ◌==◌, ◌≡◌, refl, inl, inr, List, [], ◌∷◌, none, some,
  Bool-cases, contains, if◌then◌else◌,
}
use cheese_kakao_talk_bot.Text.{trim_space, to_lower}
use cheese_kakao_talk_bot.Text.Laws.{trim_space_idem}
use cheese_kakao_talk_bot.Presets.Types.{PresetError}
use cheese_kakao_talk_bot.Presets.Tokens.{tokens_from, normalize_catalog_tokens}
use cheese_kakao_talk_bot.Presets.Validate.{Failure, check, ◌then◌, check_keys}

pub then-split : (a b : Failure) → (a then b) ≡ none → (a ≡ none) × (b ≡ none)
unfolding ◌then◌
then-split none b h = (refl, h)
then-split (some e) b h = absurd (cc)

pub then-join : (a b : Failure) → a ≡ none → b ≡ none → (a then b) ≡ none
unfolding ◌then◌
then-join none b ha hb = hb
then-join (some e) b ha hb = ha

pub check-none : (c : Bool) (e : PresetError) → c ≡ false → check c e ≡ none
unfolding check
check-none c e h = rw h refl

pub check-false : (c : Bool) (e : PresetError) → check c e ≡ none → c ≡ false
unfolding check
check-false true e h = absurd (cc)
check-false false e h = refl

pub if-true : (b : Bool) (x y : Failure) → (if b then x else y) ≡ none → b ≡ true → x ≡ none
if-true true x y h e = h
if-true false x y h e = absurd (cc)

pub if-false : (b : Bool) (x y : Failure) → (if b then x else y) ≡ none → b ≡ false → y ≡ none
if-false true x y h e = absurd (cc)
if-false false x y h e = h

pub if-none :
    (b : Bool) (x y : Failure)
    → (b ≡ true → x ≡ none)
    → (b ≡ false → y ≡ none)
    → (if b then x else y) ≡ none
if-none true x y hx hy = hx refl
if-none false x y hx hy = hy refl

module _ (beyond : Char → Char) where
  tokens_from-check_keys :
      (i : ℕ) (seen ts : List String) → check_keys beyond i seen (tokens_from beyond seen ts) ≡ none
  unfolding tokens_from check_keys ◌then◌ check
  tokens_from-check_keys i seen [] = refl
  tokens_from-check_keys i seen (t ∷ ts) = elim (Bool-cases (trim_space t == "")) [
    | inl e ↦ rw e (tokens_from-check_keys i seen ts)
    | inr e ↦ elim (Bool-cases (contains seen (to_lower beyond (trim_space t)))) [
      | inl f ↦ rw (e, f) (tokens_from-check_keys i seen ts)
      | inr f ↦
          rw (e, f, trim_space_idem t, e, f)
            (tokens_from-check_keys (i + 1) (to_lower beyond (trim_space t) ∷ seen) ts)
    ]
  ]

  -- The keys that normalizeCatalogTokens gives pass the loop of validateOpeningCatalog: none is
  -- blank, and no two agree up to letter case.
  pub normalize_catalog_tokens-check_keys :
      (ts : List String) → check_keys beyond 0 [] (normalize_catalog_tokens beyond ts) ≡ none
  unfolding normalize_catalog_tokens
  normalize_catalog_tokens-check_keys ts = tokens_from-check_keys 0 [] ts
