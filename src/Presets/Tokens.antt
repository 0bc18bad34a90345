-- ===== src/Presets/Tokens.antt =====
-- Tokens of internal/chess/preset.go: normalizeCatalogTokens and parseStyleKeys, which keep the
-- first of the texts that differ in letter case only, in their order.
use Prim.Native.Char.{Char, code}
use cheese_kakao_talk_bot.Prelude.{
  String, ◌⧺◌, Bool, ◌||◌, ◌==◌, List, [], ◌∷◌, nat_eq, contains, if◌then◌else◌,
}
use cheese_kakao_talk_bot.Text.{trim_space, to_lower, is_space}

abbrev is_separator : Char → Bool
is_separator c =
    nat_eq (code c) 44 || nat_eq (code c) 59 || nat_eq (code c) 43 || nat_eq (code c) 124

-- `, ; + |` become spaces.
unfoldable replace_separators : String → String
replace_separators String.[] = ""
replace_separators (String.◌∷◌ c s) =
    let rest = replace_separators s in if is_separator c then " " ⧺ rest else String.◌∷◌ c rest

abbrev flush : String → List String → List String
flush String.[] fs = fs
flush (String.◌∷◌ c s) fs = String.◌∷◌ c s ∷ fs

-- strings.Fields, with the field read so far
unfoldable pub fields_from : String → String → List String
unfolding is_space
fields_from word String.[] = flush word []
fields_from word (String.◌∷◌ c s) =
    let ended = fields_from "" s in
    let longer = fields_from (word ⧺ String.◌∷◌ c "") s in
    if is_space c then flush word ended else longer

module _ (beyond : Char → Char) where
  -- The loop of normalizeCatalogTokens; `seen` are the keys of its map.
  unfoldable pub tokens_from : List String → List String → List String
  unfolding trim_space to_lower
  tokens_from seen [] = []
  tokens_from seen (t ∷ ts) =
      let skipped = tokens_from seen ts in
      let kept = tokens_from (to_lower beyond (trim_space t) ∷ seen) ts in
      if trim_space t == ""
      then skipped
      else if contains seen (to_lower beyond (trim_space t))
      then skipped
      else trim_space t ∷ kept

  unfoldable pub normalize_catalog_tokens : List String → List String
  unfolding tokens_from
  normalize_catalog_tokens ts = tokens_from [] ts

  -- The loop of parseStyleKeys
  unfoldable keys_from : List String → List String → List String
  unfolding trim_space to_lower
  keys_from seen [] = []
  keys_from seen (f ∷ fs) =
      let token = to_lower beyond (trim_space f) in
      let skipped = keys_from seen fs in
      let kept = keys_from (token ∷ seen) fs in
      if token == "" then skipped else if contains seen token then skipped else token ∷ kept

  unfoldable pub parse_style_keys : String → List String
  unfolding keys_from fields_from replace_separators
  parse_style_keys input = keys_from [] (fields_from "" (replace_separators input))
