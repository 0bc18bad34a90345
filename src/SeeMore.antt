-- ===== src/SeeMore.antt =====
-- Long messages of internal/util/kakao.go: StripLeadingHeader, ApplyKakaoSeeMorePadding and
-- ApplySeeMoreWithHeader.
pub mod Stripped
use Prim.Native.String.{len, slice}
use text.Mathlib.Text.{starts_with}
use cheese_kakao_talk_bot.Prelude.{
  ℕ, zero, suc, String, ◌⧺◌, ◌==◌, Bool, ◌||◌, List, [], ◌∷◌, map, if◌then◌else◌,
}
use cheese_kakao_talk_bot.Text.{trim_space}

-- KakaoSeeMorePadding
abbrev pub see_more_padding : ℕ
see_more_padding = 500

-- KakaoZeroWidthSpace
abbrev pub zero_width_space : String
zero_width_space = "\u{200b}"

-- strings.Repeat
unfoldable pub repeat : String → ℕ → String
repeat s zero = ""
repeat s (suc n) = s ⧺ repeat s n

unfoldable pub apply_kakao_see_more_padding : String → String → String
unfolding repeat trim_space
apply_kakao_see_more_padding text instruction =
    if trim_space text == ""
    then text
    else (trim_space instruction
        ⧺ (repeat zero_width_space see_more_padding
            ⧺ ((if starts_with text "\n" then "" else "\n") ⧺ text)))

-- What may follow the header in a candidate; the last candidate is the header alone.
abbrev pub breaks : List String
breaks = "\r\n\r\n" ∷ "\n\n" ∷ "\r\n" ∷ "\n" ∷ "" ∷ []

-- The loop over the candidates
unfoldable pub strip_first : String → List String → String
strip_first text [] = text
strip_first text (c ∷ cs) =
    let rest = strip_first text cs in
    if starts_with text c then slice text (len c) (len text) else rest

unfoldable pub strip_leading_header : String → String → String
unfolding strip_first trim_space
strip_leading_header text header =
    if trim_space text == "" || trim_space header == ""
    then text
    else strip_first text (map (λ b. header ⧺ b) breaks)

-- The instruction of a header without space around it
abbrev pub instruction_of : String → String → String → String
instruction_of header fallback suffix =
    if header == "" then trim_space fallback else if suffix == "" then header else (header ⧺ suffix)

unfoldable pub apply_see_more_with_header : String → String → String → String → String
unfolding apply_kakao_see_more_padding strip_leading_header trim_space
apply_see_more_with_header text header fallback suffix =
    let instruction = instruction_of (trim_space header) fallback suffix in
    if trim_space text == ""
    then text
    else apply_kakao_see_more_padding (strip_leading_header text header)
        (if instruction == "" then trim_space fallback else instruction)
