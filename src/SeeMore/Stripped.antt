-- ===== src/SeeMore/Stripped.antt =====
-- What StripLeadingHeader of internal/util/kakao.go removes.
use Prim.Native.String.{len, slice}
use text.Mathlib.Text.{starts_with}
use text.Mathlib.TextBridge.{IsPrefix}
use text.Mathlib.TextEquality.{starts_with_iff}
use text.Mathlib.TextPositions.{slice-append_right, len-append}
use cheese_kakao_talk_bot.Prelude.{
  ◌≤◌, String, ◌⧺◌, ◌≡◌, ◌≢◌, refl, sym, subst, ◌∙◌, ap, ◌⊎◌, inl, inr, true, false, List, [], ◌∷◌,
  map, All, arith, Bool-cases, eq-false_of_ne,
}
use cheese_kakao_talk_bot.Text.{trim_space}
use cheese_kakao_talk_bot.SeeMore.{breaks, strip_first, strip_leading_header}

-- A text of a list
abbrev pub OneOf : String → List String → Type 0
OneOf b [] = ⊥
OneOf b (c ∷ cs) = (b ≡ c) ⊎ OneOf b cs

-- The text is the header, the longest of the breaks that follows it there, and the rest.
pub record Cut (text header : String) (bs : List String) (rest : String) : Type 0 where
  pub break : String
  pub is_listed : OneOf break bs
  pub parts : text ≡ (header ⧺ break) ⧺ rest
  pub is_longest : All (λ b. IsPrefix (header ⧺ b) text → len b ≤ len break) bs

-- The text does not start with the header and any of the breaks, and stays.
abbrev pub Kept : String → String → List String → String → Type 0
Kept text header bs rest = All (λ b. ¬ (IsPrefix (header ⧺ b) text)) bs × (rest ≡ text)

-- Each text is at least as long as those that follow it.
abbrev Descends : List String → Type 0
Descends [] = Unit
Descends (b ∷ bs) = All (λ c. len c ≤ len b) bs × Descends bs

rest_of : (text c : String) → starts_with text c ≡ true → text ≡ c ⧺ slice text (len c) (len text)
rest_of text c h =
    let (u, e) = (starts_with_iff text c).0 h in
    subst (λ t. t ≡ c ⧺ slice t (len c) (len t)) e
      (ap (λ v. c ⧺ v)
        (sym (ap (λ n. slice (c ⧺ u) (len c) n) (len-append c u) ∙ slice-append_right c u)))

no_prefix : (text c : String) → starts_with text c ≡ false → ¬ (IsPrefix c text)
no_prefix text c h p = ground (arith, h, (starts_with_iff text c).1 p)

All-map :
    {A B : String → Type 0} (bs : List String) → ((b : String) → A b → B b) → All A bs → All B bs
All-map [] f h = tt
All-map (b ∷ bs) f h = (f b h.0, All-map bs f h.1)

strip_first-Cut :
    (text header : String) (bs : List String)
    → Descends bs
    → Kept text header bs (strip_first text (map (λ b. header ⧺ b) bs))
      ⊎ Cut text header bs (strip_first text (map (λ b. header ⧺ b) bs))
unfolding strip_first
strip_first-Cut text header [] d = inl (tt, refl)
strip_first-Cut text header (b ∷ bs) d = elim (Bool-cases (starts_with text (header ⧺ b))) [
  | inl e ↦ rw e (
      inr (record {
        break = b;
        is_listed = inl refl;
        parts = rest_of text (header ⧺ b) e;
        is_longest = (λ p. omega arith, All-map bs (λ c l p. l) d.0);
      }))
  | inr e ↦ rw e (elim (strip_first-Cut text header bs d.1) [
    | inl k ↦ inl ((no_prefix text (header ⧺ b) e, k.0), k.1)
    | inr c ↦ inr (record {
      break = c.break;
      is_listed = inr c.is_listed;
      parts = c.parts;
      is_longest = (λ p. absurd (no_prefix text (header ⧺ b) e p), c.is_longest);
    })
  ])
]

-- From a text and a header that are not blank, StripLeadingHeader removes the header and the longest of the listed line breaks that follows it, if the text starts with the header and one of them (the empty one is listed), and otherwise the text stays.
pub strip_leading_header-Cut :
    (text header : String)
    → trim_space text ≢ ""
    → trim_space header ≢ ""
    → Kept text header breaks (strip_leading_header text header)
      ⊎ Cut text header breaks (strip_leading_header text header)
unfolding strip_leading_header
strip_leading_header-Cut text header h k =
    rw (eq-false_of_ne (trim_space text) "" h, eq-false_of_ne (trim_space header) "" k)
      (strip_first-Cut text header breaks (omega arith))
