-- ===== src/Openings/Weights.antt =====
-- selectCatalogMove (internal/chess/engine.go) draws by weight.
use cheese_kakao_talk_bot.Prelude.{
  some, ℕ, ◌+◌, ◌≤◌, ◌<◌, ◌≡◌, refl, ap, List, [], ◌∷◌, ◌++◌, false, inl, inr, Bool-cases, ltb, leb,
  arith,
}
use cheese_kakao_talk_bot.Openings.{Entry, total_of, entry_at, select_catalog_move}

-- The entry whose weights, after those of the entries before it, hold the roll.
pub record Holds (roll sum : ℕ) (es : List Entry) (x : Entry) : Type 0 where
  pub before : List Entry
  pub after : List Entry
  pub split : es ≡ before ++ (x ∷ after)
  pub not_before : sum + total_of before ≤ roll
  pub not_after : roll < sum + total_of before + x.weight

entry_at-Holds :
    (roll sum : ℕ) (e : Entry) (es : List Entry)
    → sum ≤ roll
    → roll < sum + total_of (e ∷ es)
    → Holds roll sum (e ∷ es) (entry_at roll sum e es)
unfolding entry_at total_of
entry_at-Holds roll sum e [] low high = record {
  before = [];
  after = [];
  split = refl;
  not_before = omega (arith, low);
  not_after = omega (arith, high);
}
entry_at-Holds roll sum e (f ∷ fs) low high = elim (Bool-cases (ltb roll (sum + e.weight))) [
  | inl h ↦ rw h (record {
    before = [];
    after = f ∷ fs;
    split = refl;
    not_before = omega (arith, low);
    not_after = ground (arith, h);
  })
  | inr h ↦
      let past : sum + e.weight ≤ roll = ground (arith, h) in
      let k = entry_at-Holds roll (sum + e.weight) f fs past (omega (arith, high)) in
      rw h (record {
        before = e ∷ k.before;
        after = k.after;
        split = ap (λ xs. e ∷ xs) k.split;
        not_before = omega (arith, k.not_before);
        not_after = omega (arith, k.not_after);
      })
]

-- If there is weight at all, and r.Intn draws below what it is given, then selectCatalogMove gives
-- the entry whose part of the whole weight holds the roll.
pub select_catalog_move-Holds :
    (draw : ℕ → ℕ) (e : Entry) (es : List Entry)
    → 1 ≤ total_of (e ∷ es)
    → draw (total_of (e ∷ es)) < total_of (e ∷ es)
    → Holds (draw (total_of (e ∷ es))) 0 (e ∷ es) (select_catalog_move (some draw) (e ∷ es))
unfolding select_catalog_move
select_catalog_move-Holds draw e es some_weight drawn =
    let positive : leb (total_of (e ∷ es)) 0 ≡ false = ground (arith, some_weight) in
    rw positive
      (entry_at-Holds (draw (total_of (e ∷ es))) 0 e es (omega arith) (omega (arith, drawn)))
