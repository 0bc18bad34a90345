-- ===== src/Examples/SeeMore.antt =====
-- Long messages at concrete inputs.
use cheese_kakao_talk_bot.Prelude.{ap, true, ◌==◌, ◌≡◌, ◌≢◌, refl, ◌⊎◌, false}
use cheese_kakao_talk_bot.Text.{trim_space, trim_left, trim_right, is_space}
use cheese_kakao_talk_bot.SeeMore.{
  breaks, strip_leading_header, strip_first, apply_see_more_with_header,
}
use cheese_kakao_talk_bot.SeeMore.Stripped.{Kept, Cut, strip_leading_header-Cut}

stripped : strip_leading_header "Title\n\nbody" "Title" ≡ "body"
unfolding strip_leading_header strip_first trim_space trim_left trim_right is_space
stripped = refl

kept : strip_leading_header "body" "Title" ≡ "body"
unfolding strip_leading_header strip_first trim_space trim_left trim_right is_space
kept = refl

blank_text : apply_see_more_with_header " " "Title" "More" "" ≡ " "
unfolding apply_see_more_with_header trim_space trim_left trim_right is_space
blank_text = refl

not_blank : trim_space "Title\n\nbody" ≢ ""
unfolding trim_space trim_left trim_right is_space
not_blank = λ e. let other : false ≡ true = ap (λ s. s == "") e in absurd (cc)

named : trim_space "Title" ≢ ""
unfolding trim_space trim_left trim_right is_space
named = λ e. let other : false ≡ true = ap (λ s. s == "") e in absurd (cc)

strip_leading_header-Cut_example :
    Kept "Title\n\nbody" "Title" breaks (strip_leading_header "Title\n\nbody" "Title")
    ⊎ Cut "Title\n\nbody" "Title" breaks (strip_leading_header "Title\n\nbody" "Title")
strip_leading_header-Cut_example = strip_leading_header-Cut "Title\n\nbody" "Title" not_blank named
