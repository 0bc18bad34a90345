-- ===== src/Material/Shown.antt =====
-- What CapturedPieces.Recent of internal/service/chess/service.go shows.
use cheese_kakao_talk_bot.Prelude.{
  ℕ, zero, suc, ◌-◌, ◌≤◌, ◌≡◌, refl, ap, sym, ◌∙◌, List, [], ◌∷◌, ◌++◌, length, length-append, inl,
  inr, ◌⊎◌, arith,
}
use cheese_kakao_talk_bot.Presets.Types.{pos}
use cheese_kakao_talk_bot.ChessLib.{Kind, Side}
use cheese_kakao_talk_bot.Material.{CapturedPieces, order_of, drop_kinds, backwards, recent}

-- The first pieces of an order
unfoldable pub first_kinds : ℕ → List Kind → List Kind
first_kinds zero ks = []
first_kinds (suc n) [] = []
first_kinds (suc n) (k ∷ ks) = k ∷ first_kinds n ks

first_kinds-all : (n : ℕ) (ks : List Kind) → length ks ≤ n → first_kinds n ks ≡ ks
unfolding first_kinds
first_kinds-all zero [] h = refl
first_kinds-all zero (k ∷ ks) h = absurd (omega (arith, h))
first_kinds-all (suc n) [] h = refl
first_kinds-all (suc n) (k ∷ ks) h = ap (λ js. k ∷ js) (first_kinds-all n ks (omega arith))

first_kinds-append :
    (n : ℕ) (ks js : List Kind) → n ≤ length ks → first_kinds n (ks ++ js) ≡ first_kinds n ks
unfolding first_kinds
first_kinds-append zero ks js h = refl
first_kinds-append (suc n) [] js h = absurd (omega (arith, h))
first_kinds-append (suc n) (k ∷ ks) js h =
    ap (λ ls. k ∷ ls) (first_kinds-append n ks js (omega arith))

length-backwards : (ks : List Kind) → length (backwards ks) ≡ length ks
unfolding backwards
length-backwards [] = refl
length-backwards (k ∷ ks) =
    omega (arith, length-append (backwards ks) (k ∷ []), length-backwards ks)

nothing_left : (n : ℕ) → 0 - n ≡ 0
nothing_left n = omega arith

past_or_fits : (n l : ℕ) → (suc l - n ≡ 0) × (suc l ≤ n) ⊎ (suc l - n ≡ suc (l - n)) × (n ≤ l)
past_or_fits n l = ground arith

backwards-drop :
    (n : ℕ) (ks : List Kind)
    → backwards (drop_kinds (length ks - n) ks) ≡ first_kinds n (backwards ks)
unfolding backwards drop_kinds
backwards-drop n [] = rw (nothing_left n) (sym (first_kinds-all n [] (omega arith)))
backwards-drop n (k ∷ ks) = elim (past_or_fits n (length ks)) [
  | inl e ↦
      rw e.0 (
        sym
          (first_kinds-all n (backwards (k ∷ ks)) (omega (arith, length-backwards (k ∷ ks), e.1))))
  | inr p ↦ rw p.0 (
      backwards-drop n ks
      ∙ sym
          (first_kinds-append n (backwards ks) (k ∷ []) (omega (arith, length-backwards ks, p.1))))
]

-- Recent gives the latest pieces that the side took, the last first, as many as the limit if there are so many, and all of them otherwise.
pub recent-latest :
    (c : CapturedPieces) (side : Side) (limit : ℕ)
    → recent c side (pos limit) ≡ first_kinds limit (backwards (order_of c side))
unfolding recent first_kinds
recent-latest c side zero = refl
recent-latest c side (suc n) = backwards-drop (suc n) (order_of c side)
