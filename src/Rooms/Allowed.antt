-- ===== src/Rooms/Allowed.antt =====
-- roomAllowed and extractRoomID (cmd/chess-bot/main.go): which messages are dealt with.
use Prim.Native.Char.{Char, code}
use cheese_kakao_talk_bot.Prelude.{
  ℕ, String, ◌==◌, ◌≡◌, refl, sym, ◌∙◌, ap, Bool, true, false, List, Option, none, some, inl, inr,
  ◌⊎◌, Bool-cases, contains, eq_iff, ◌-◌, ◌^◌, arith, nat_eq,
}
use cheese_kakao_talk_bot.Rooms.{
  Message, Payload, is_digit, digits_of, sanitize_room_id, sanitize_text, extract_room_id,
  json_room, or_else, number_within, number_from, parses_int, room_allowed,
}

abbrev nonempty : String → Bool
nonempty String.[] = false
nonempty (String.◌∷◌ c s) = true

digits_of_idem : (s : String) → digits_of (digits_of s) ≡ digits_of s
unfolding digits_of
digits_of_idem String.[] = refl
digits_of_idem (String.◌∷◌ c s) = elim (Bool-cases (is_digit c)) [
  | inl e ↦ rw (e, e) (ap (λ r. String.◌∷◌ c r) (digits_of_idem s))
  | inr e ↦ rw e (digits_of_idem s)
]

-- A text that stands for a number has a digit.
number_within-digit :
    (bound : ℕ) (s : String) → number_within bound s ≡ true → nonempty (digits_of s) ≡ true
unfolding number_within number_from digits_of
number_within-digit bound String.[] h = absurd (cc)
number_within-digit bound (String.◌∷◌ c s) h = elim (Bool-cases (is_digit c)) [
  | inl e ↦ rw e refl
  | inr e ↦ absurd (ground (arith, h, e))
]

digits_of-more :
    (c : Char) (s : String)
    → nonempty (digits_of s) ≡ true
    → nonempty (digits_of (String.◌∷◌ c s)) ≡ true
unfolding digits_of
digits_of-more c s h = elim (Bool-cases (is_digit c)) [ inl e ↦ rw e refl | inr e ↦ rw e h ]

parses_int-digit : (s : String) → parses_int s ≡ true → nonempty (digits_of s) ≡ true
unfolding parses_int
parses_int-digit String.[] h = absurd (cc)
parses_int-digit (String.◌∷◌ c s) h = elim (Bool-cases (nat_eq (code c) 43)) [
  | inl e ↦ digits_of-more c s (number_within-digit (2 ^ 63 - 1) s (sym (rw e refl) ∙ h))
  | inr e ↦ elim (Bool-cases (nat_eq (code c) 45)) [
    | inl f ↦ digits_of-more c s (number_within-digit (2 ^ 63) s (sym (rw (e, f) refl) ∙ h))
    | inr f ↦ number_within-digit (2 ^ 63 - 1) (String.◌∷◌ c s) (sym (rw (e, f) refl) ∙ h)
  ]
]

-- The id of a room: digits only, or a text without digits.
record IsRoomId (s : String) : Type 0 where
  digits_or_none : (digits_of s ≡ s) ⊎ (nonempty (digits_of s) ≡ false)

or_else-IsRoomId : (a b : String) → IsRoomId a → IsRoomId b → IsRoomId (or_else a b)
or_else-IsRoomId a b ha hb = elim (Bool-cases (a == "")) [ inl e ↦ rw e hb | inr e ↦ rw e ha ]

sanitize_room_id-IsRoomId : (s : String) → IsRoomId (sanitize_room_id s)
unfolding sanitize_room_id
sanitize_room_id-IsRoomId s = record { digits_or_none = inl (digits_of_idem (sanitize_text s)) }

json_room-IsRoomId : (p : Option Payload) → IsRoomId (json_room p)
unfolding digits_of
json_room-IsRoomId none = record { digits_or_none = inl refl }
json_room-IsRoomId (some p) =
    or_else-IsRoomId (sanitize_room_id p.room_id) (sanitize_room_id p.chat_id)
      (sanitize_room_id-IsRoomId p.room_id) (sanitize_room_id-IsRoomId p.chat_id)

blank_or_not : (s : String) → (s == "") ≡ true → nonempty s ≡ false
blank_or_not s h = let same : s ≡ "" = ground (arith, h, eq_iff s "") in ap nonempty same

-- The name of the room is taken only if it has no digits.
name-IsRoomId : (s : String) → IsRoomId (or_else (sanitize_room_id s) (sanitize_text s))
unfolding sanitize_room_id
name-IsRoomId s = elim (Bool-cases (digits_of (sanitize_text s) == "")) [
  | inl e ↦ rw e (record { digits_or_none = inr (blank_or_not (digits_of (sanitize_text s)) e) })
  | inr e ↦ rw e (record { digits_or_none = inl (digits_of_idem (sanitize_text s)) })
]

extract_room_id-IsRoomId : (m : Message) → IsRoomId (extract_room_id m)
unfolding extract_room_id
extract_room_id-IsRoomId m =
    or_else-IsRoomId (json_room m.json) _ (json_room-IsRoomId m.json) (name-IsRoomId m.room)

only_digits : (s : String) → IsRoomId s → parses_int s ≡ true → digits_of s ≡ s
only_digits s r h = elim r.digits_or_none [
  | inl e ↦ e
  | inr e ↦ let clash : true ≡ false = sym (parses_int-digit s h) ∙ e in absurd (cc)
]

-- A message whose room is allowed has an id of digits alone, which is one of the allowed ones.
pub room_allowed-listed :
    (allowed : List String) (m : Message)
    → room_allowed allowed m ≡ true
    → (contains allowed (extract_room_id m) ≡ true)
      × (digits_of (extract_room_id m) ≡ extract_room_id m)
unfolding room_allowed
room_allowed-listed allowed m h =
    let parsed : parses_int (extract_room_id m) ≡ true = ground (arith, h) in
    let listed : contains allowed (extract_room_id m) ≡ true = ground (arith, h) in
    (listed, only_digits (extract_room_id m) (extract_room_id-IsRoomId m) parsed)
