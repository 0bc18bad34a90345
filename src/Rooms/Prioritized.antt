-- ===== src/Rooms/Prioritized.antt =====
-- prioritizeRooms (cmd/chess-bot/main.go): the current room first, and no room twice.
use cheese_kakao_talk_bot.Prelude.{
  String, ◌==◌, ◌≡◌, refl, subst, ◌∙◌, ap, Bool, true, false, ◌&&◌, ◌||◌, not, List, [], ◌∷◌, inl,
  inr, Bool-cases, contains, eq_iff, eq_refl, arith, if◌then◌else◌, eq-false_of_ne, ◌≢◌,
}
use cheese_kakao_talk_bot.Text.{trim_space}
use cheese_kakao_talk_bot.Rooms.{distinct_from, prioritize_rooms}

-- The rooms that are not blank, trimmed.
unfoldable pub named_rooms : List String → List String
unfolding trim_space
named_rooms [] = []
named_rooms (r ∷ rs) =
    let rest = named_rooms rs in if trim_space r == "" then rest else trim_space r ∷ rest

abbrev pub Distinct : List String → Type 0
Distinct [] = Unit
Distinct (r ∷ rs) = (contains rs r ≡ false) × Distinct rs

-- The steps of the two lists agree, for a room `r` that is new or seen.
contains-skip :
    (seen : List String) (r x : String) (c : Bool)
    → contains seen r ≡ true
    → (c && not (contains seen x)) ≡ ((r == x || c) && not (contains seen x))
contains-skip seen r x c h = elim (Bool-cases (r == x)) [
  | inl e ↦
      let same : r ≡ x = ground (arith, e, eq_iff r x) in
      let hx : contains seen x ≡ true = subst (λ y. contains seen y ≡ true) same h in
      rw (hx, e) (ground arith)
  | inr e ↦ rw e refl
]

contains-keep :
    (seen : List String) (r x : String) (c : Bool)
    → contains seen r ≡ false
    → (r == x || c && not (r == x || contains seen x)) ≡ ((r == x || c) && not (contains seen x))
contains-keep seen r x c h = elim (Bool-cases (r == x)) [
  | inl e ↦
      let same : r ≡ x = ground (arith, e, eq_iff r x) in
      let hx : contains seen x ≡ false = subst (λ y. contains seen y ≡ false) same h in
      rw (hx, e) refl
  | inr e ↦ rw e refl
]

contains-distinct_from :
    (seen rs : List String) (x : String)
    → contains (distinct_from seen rs) x ≡ (contains (named_rooms rs) x && not (contains seen x))
unfolding distinct_from named_rooms contains
contains-distinct_from seen [] x = refl
contains-distinct_from seen (r ∷ rs) x = elim (Bool-cases (trim_space r == "")) [
  | inl e ↦ rw e (contains-distinct_from seen rs x)
  | inr e ↦ elim (Bool-cases (contains seen (trim_space r))) [
    | inl f ↦ rw (e, f) (contains-distinct_from seen rs x ∙ contains-skip seen (trim_space r) x _ f)
    | inr f ↦
        rw (e, f)
          (ap (λ c. trim_space r == x || c) (contains-distinct_from (trim_space r ∷ seen) rs x)
            ∙ contains-keep seen (trim_space r) x _ f)
  ]
]

seen_not_listed :
    (seen rs : List String) (r : String)
    → contains seen r ≡ true
    → contains (distinct_from seen rs) r ≡ false
seen_not_listed seen rs r h = rw (contains-distinct_from seen rs r, h) (ground arith)

first_seen : (r : String) (seen : List String) → contains (r ∷ seen) r ≡ true
unfolding contains
first_seen r seen = rw (eq_refl r) refl

distinct_from-Distinct : (seen rs : List String) → Distinct (distinct_from seen rs)
unfolding distinct_from
distinct_from-Distinct seen [] = tt
distinct_from-Distinct seen (r ∷ rs) = elim (Bool-cases (trim_space r == "")) [
  | inl e ↦ rw e (distinct_from-Distinct seen rs)
  | inr e ↦ elim (Bool-cases (contains seen (trim_space r))) [
    | inl f ↦ rw (e, f) (distinct_from-Distinct seen rs)
    | inr f ↦
        rw (e, f)
          (
            seen_not_listed (trim_space r ∷ seen) rs (trim_space r)
                (first_seen (trim_space r) seen),
            distinct_from-Distinct (trim_space r ∷ seen) rs,
          )
  ]
]

listed_or : (r x : String) (c : Bool) → (r == x || c && not (r == x || false)) ≡ (r == x || c)
listed_or r x c = elim (Bool-cases (r == x)) [ inl e ↦ rw e refl | inr e ↦ rw e (ground arith) ]

-- The rooms that an answer goes to, with the current one first.
pub record IsOrdered (rooms : List String) (current : String) (out : List String) : Type 0 where
  pub others : List String
  pub starts : out ≡ trim_space current ∷ others
  pub distinct : Distinct out
  pub same_rooms :
      (x : String) → contains out x ≡ contains (trim_space current ∷ named_rooms rooms) x

-- With a current room that is not blank, prioritizeRooms gives that room first, no room twice, and
-- of the others exactly those that are not blank, all of them trimmed.
pub prioritize_rooms-IsOrdered :
    (rooms : List String) (current : String)
    → trim_space current ≢ ""
    → IsOrdered rooms current (prioritize_rooms rooms current)
unfolding prioritize_rooms contains
prioritize_rooms-IsOrdered rooms current ne =
    let cur = trim_space current in
    rw (eq-false_of_ne (trim_space current) "" ne) (record {
      others = distinct_from (cur ∷ []) rooms;
      starts = refl;
      distinct = (
        seen_not_listed (cur ∷ []) rooms cur (first_seen cur []),
        distinct_from-Distinct (cur ∷ []) rooms,
      );
      same_rooms = λ x.
          ap (λ c. cur == x || c) (contains-distinct_from (cur ∷ []) rooms x) ∙ listed_or cur x _;
    })
