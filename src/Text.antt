-- ===== src/Text.antt =====
-- The texts of Go's `strings` package that the program uses: TrimSpace and ToLower.
pub mod Laws
use Prim.Native.Char.{Char, code}
use cheese_kakao_talk_bot.Prelude.{
  ℕ, ◌-◌, String, ◌==◌, Bool, ◌&&◌, ◌||◌, leb, nat_eq, if◌then◌else◌,
}

-- unicode.IsSpace: the characters with the property White_Space
unfoldable pub is_space : Char → Bool
is_space c =
    let n = code c in
    leb 9 n && leb n 13
    || nat_eq n 32
    || nat_eq n 133
    || nat_eq n 160
    || nat_eq n 5760
    || leb 8192 n && leb n 8202
    || nat_eq n 8232
    || nat_eq n 8233
    || nat_eq n 8239
    || nat_eq n 8287
    || nat_eq n 12288

-- strings.TrimLeftFunc(s, unicode.IsSpace)
unfoldable pub trim_left : String → String
trim_left String.[] = ""
trim_left (String.◌∷◌ c s) = let rest = trim_left s in if is_space c then rest else String.◌∷◌ c s

abbrev pub keep_char : Char → String → String
keep_char c String.[] = if is_space c then "" else String.◌∷◌ c ""
keep_char c (String.◌∷◌ d s) = String.◌∷◌ c (String.◌∷◌ d s)

-- strings.TrimRightFunc(s, unicode.IsSpace)
unfoldable pub trim_right : String → String
trim_right String.[] = ""
trim_right (String.◌∷◌ c s) = keep_char c (trim_right s)

-- strings.TrimSpace
unfoldable pub trim_space : String → String
unfolding trim_left trim_right is_space
trim_space s = trim_right (trim_left s)

-- The i-th character of a text, or the default.
nth_char : String → ℕ → Char → Char
nth_char String.[] i d = d
nth_char (String.◌∷◌ c s) ℕ.zero d = c
nth_char (String.◌∷◌ c s) (ℕ.suc i) d = nth_char s i d

-- unicode.ToLower. Its tables past ASCII are data of the Go distribution, given as `beyond`.
unfoldable pub lower_char : (Char → Char) → Char → Char
unfolding nth_char
lower_char beyond c =
    let n = code c in
    if leb 65 n && leb n 90
    then nth_char "abcdefghijklmnopqrstuvwxyz" (n - 65) c
    else if leb n 127
    then c
    else beyond c

-- strings.ToLower
unfoldable pub to_lower : (Char → Char) → String → String
unfolding lower_char
to_lower beyond String.[] = ""
to_lower beyond (String.◌∷◌ c s) = String.◌∷◌ (lower_char beyond c) (to_lower beyond s)

-- strings.EqualFold; `orbit` gives each character past ASCII one of those that are the same to it.
unfoldable pub equal_fold : (Char → Char) → String → String → Bool
unfolding to_lower
equal_fold orbit s t = to_lower orbit s == to_lower orbit t
