-- ===== src/Text/Laws.antt =====
-- Laws of `trim_space`: trimming twice is trimming once.
use Prim.Native.Char.{Char}
use cheese_kakao_talk_bot.Prelude.{String, ◌≡◌, refl, inl, inr, false, Bool-cases}
use cheese_kakao_talk_bot.Text.{is_space, trim_left, trim_right, trim_space, keep_char}

-- The first character is no space.
abbrev Starts : String → Type 0
Starts String.[] = Unit
Starts (String.◌∷◌ c s) = is_space c ≡ false

trim_left-Starts : (s : String) → Starts (trim_left s)
unfolding trim_left
trim_left-Starts String.[] = tt
trim_left-Starts (String.◌∷◌ c s) = elim (Bool-cases (is_space c)) [
  | inl e ↦ rw e (trim_left-Starts s)
  | inr e ↦ rw e e
]

trim_left_of_Starts : (s : String) → Starts s → trim_left s ≡ s
unfolding trim_left
trim_left_of_Starts String.[] h = refl
trim_left_of_Starts (String.◌∷◌ c s) h = rw h

keep_char-Starts : (c : Char) (s : String) → is_space c ≡ false → Starts (keep_char c s)
keep_char-Starts c String.[] h = rw h h
keep_char-Starts c (String.◌∷◌ d s) h = h

trim_right-Starts : (s : String) → Starts s → Starts (trim_right s)
unfolding trim_right
trim_right-Starts String.[] h = tt
trim_right-Starts (String.◌∷◌ c s) h = keep_char-Starts c (trim_right s) h

trim_right-keep_char :
    (c : Char) (s : String) → trim_right s ≡ s → trim_right (keep_char c s) ≡ keep_char c s
unfolding trim_right
trim_right-keep_char c String.[] h = elim (Bool-cases (is_space c)) [
  | inl e ↦ rw e
  | inr e ↦ rw (e, keep_char, e)
]
trim_right-keep_char c (String.◌∷◌ d s) h = rw h

trim_right_idem : (s : String) → trim_right (trim_right s) ≡ trim_right s
unfolding trim_right
trim_right_idem String.[] = refl
trim_right_idem (String.◌∷◌ c s) = trim_right-keep_char c (trim_right s) (trim_right_idem s)

-- strings.TrimSpace is idempotent.
pub trim_space_idem : (s : String) → trim_space (trim_space s) ≡ trim_space s
unfolding trim_space
trim_space_idem s =
    rw
      (trim_left_of_Starts (trim_right (trim_left s))
        (trim_right-Starts (trim_left s) (trim_left-Starts s)))
      (trim_right_idem (trim_left s))
