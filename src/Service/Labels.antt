-- ===== src/Service/Labels.antt =====
-- Texts, keys and identities of internal/service/chess/service.go.
use cheese_kakao_talk_bot.Prelude.{
  ℕ, zero, suc, String, ◌⧺◌, ◌==◌, Bool, true, ◌||◌, List, [], ◌∷◌, ltb, nat_eq, contains,
  if◌then◌else◌,
}
use cheese_kakao_talk_bot.Text.{trim_space, to_lower}
use cheese_kakao_talk_bot.Presets.Tokens.{fields_from}
use cheese_kakao_talk_bot.Service.Types.{SessionMeta, SessionIdentity, room_not_allowed}
use cheese_kakao_talk_bot.Service.State.{Result, ok, err}
use cheese_kakao_talk_bot.Service.Environment.{Environment}
use Prim.Native.Char.{code}

-- strings.NewReplacer("\r", " ", "\n", " ")
unfoldable pub replace_breaks : String → String
replace_breaks String.[] = ""
replace_breaks (String.◌∷◌ c s) =
    let rest = replace_breaks s in
    if nat_eq (code c) 13 || nat_eq (code c) 10 then " " ⧺ rest else String.◌∷◌ c rest

-- strings.Join(parts, " ")
unfoldable pub join_spaces : List String → String
join_spaces [] = ""
join_spaces (k ∷ []) = k
join_spaces (k ∷ l ∷ ks) = k ⧺ " " ⧺ join_spaces (l ∷ ks)

unfoldable pub count_runes : String → ℕ
count_runes String.[] = 0
count_runes (String.◌∷◌ c s) = suc (count_runes s)

unfoldable pub first_runes : ℕ → String → String
first_runes zero s = ""
first_runes (suc n) String.[] = ""
first_runes (suc n) (String.◌∷◌ c s) = String.◌∷◌ c (first_runes n s)

abbrev shorten : String → String
shorten cut = if cut == "" then "" else cut ⧺ "..."

unfoldable pub normalize_hud_player_label : String → String
unfolding trim_space replace_breaks join_spaces fields_from count_runes first_runes
normalize_hud_player_label raw =
    let cleaned = join_spaces (fields_from "" (replace_breaks (trim_space raw))) in
    if ltb 24 (count_runes cleaned) then shorten (trim_space (first_runes 24 cleaned)) else cleaned

module _ (E : Environment) where
  unfoldable pub normalized : String → String
  unfolding trim_space to_lower
  normalized s = to_lower E.beyond (trim_space s)

  unfoldable pub normalize_preset_label : String → String → String
  unfolding normalized
  normalize_preset_label preset fallback =
      if normalized preset == ""
      then (if normalized fallback == "" then "level3" else normalized fallback)
      else normalized preset

  -- The keys of the map allowedRooms that NewService builds.
  unfoldable pub room_set : List String → List String
  unfolding normalized
  room_set [] = []
  room_set (r ∷ rs) =
      let rest = room_set rs in if normalized r == "" then rest else normalized r ∷ rest

  abbrev room_name : String → String
  room_name room = if room == "" then "unknown-room" else room

  abbrev pub is_allowed : List String → String → Bool
  is_allowed [] room = true
  is_allowed (r ∷ rs) room = contains (r ∷ rs) room

  unfoldable pub ensure_room_allowed : SessionMeta → Result (Unit {0})
  unfolding room_set normalized
  ensure_room_allowed meta =
      if is_allowed (room_set E.config.allowed_rooms) (room_name (normalized meta.room))
      then ok tt
      else err room_not_allowed

  unfoldable pub derive_identity : SessionMeta → SessionIdentity
  unfolding normalized
  derive_identity meta = record {
    session_id = normalized meta.session_id;
    room_hash = E.hash (normalized meta.room);
    player_hash = E.hash (normalized meta.room ⧺ ":" ⧺ normalized meta.sender);
  }

  unfoldable pub session_key : String → String
  unfolding trim_space
  session_key id = "chess:sessions:" ⧺ E.hash (trim_space id)

  unfoldable pub profile_cache_key : SessionIdentity → String
  profile_cache_key id = "chess:profile:" ⧺ id.player_hash ⧺ ":" ⧺ id.room_hash
