-- ===== src/Calls/Keys.antt =====
-- Keys of different kinds differ.
use Prim.Native.Char.{Char, code}
use Prim.Native.String.append
use cheese_kakao_talk_bot.Prelude.{ℕ, String, ◌⧺◌, ◌≡◌, ◌≢◌, ap, arith}
use cheese_kakao_talk_bot.Text.{trim_space}
use cheese_kakao_talk_bot.PvpChess.Games.{game_key}
use cheese_kakao_talk_bot.PvpChan.Store.{key_meta}

-- The code point of the first character.
abbrev head_code : String → ℕ
head_code String.[] = 0
head_code (String.◌∷◌ c s) = code c

head-append : (c : Char) (s t : String) → head_code (String.◌∷◌ c s ⧺ t) ≡ code c
head-append c s t = ap head_code (append.cons c s t)

head_meta : (c : String) → head_code (key_meta c) ≡ 99
unfolding key_meta
head_meta c = head-append "c" "h:" (trim_space c)

head_game : (i : String) → head_code (game_key i) ≡ 112
unfolding game_key
head_game i = head-append "p" "vp:game:" (trim_space i)

pub meta-ne-game : (c i : String) → key_meta c ≢ game_key i
meta-ne-game c i e = omega (arith, ap head_code e, head_meta c, head_game i)
