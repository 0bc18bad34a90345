-- ===== src/Rooms.antt =====
-- Rooms, users and texts of a chat message, and the rooms that an answer goes to
-- (cmd/chess-bot/main.go).
pub mod Allowed
pub mod Prioritized
use Prim.Native.Char.{Char, code}
use cheese_kakao_talk_bot.Prelude.{
  ℕ, ◌+◌, ◌-◌, ◌*◌, ◌^◌, String, ◌⧺◌, ◌==◌, Bool, true, false, ◌&&◌, ◌||◌, not, List, [], ◌∷◌,
  Option, none, some, ltb, leb, nat_eq, contains, if◌then◌else◌,
}
use cheese_kakao_talk_bot.Text.{trim_space, equal_fold}

-- Message.JSON of internal/irisfast/types.go
pub record Payload : Type 0 where
  pub user_id : String
  pub room_id : String
  pub chat_id : String
  pub message : String

pub record Message : Type 0 where
  pub msg : String
  pub room : String
  pub sender : Option String
  pub json : Option Payload

-- The zero-width characters
abbrev pub is_hidden : Char → Bool
is_hidden c = let n = code c in leb 8203 n && leb n 8205 || nat_eq n 8288 || nat_eq n 65279

unfoldable pub replace_hidden : String → String
replace_hidden String.[] = ""
replace_hidden (String.◌∷◌ c s) =
    let rest = replace_hidden s in
    if is_hidden c then rest else if nat_eq (code c) 160 then " " ⧺ rest else String.◌∷◌ c rest

unfoldable pub sanitize_text : String → String
unfolding replace_hidden trim_space
sanitize_text s = trim_space (replace_hidden s)

abbrev pub is_digit : Char → Bool
is_digit c = leb 48 (code c) && leb (code c) 57

unfoldable pub digits_of : String → String
digits_of String.[] = ""
digits_of (String.◌∷◌ c s) =
    let rest = digits_of s in if is_digit c then String.◌∷◌ c rest else rest

unfoldable pub sanitize_room_id : String → String
unfolding digits_of sanitize_text
sanitize_room_id s = digits_of (sanitize_text s)

abbrev pub or_else : String → String → String
or_else a b = if a == "" then b else a

abbrev pub json_room : Option Payload → String
json_room none = ""
json_room (some p) = or_else (sanitize_room_id p.room_id) (sanitize_room_id p.chat_id)

unfoldable pub extract_room_id : Message → String
unfolding sanitize_room_id sanitize_text
extract_room_id m =
    or_else (json_room m.json) (or_else (sanitize_room_id m.room) (sanitize_text m.room))

abbrev trimmed_sender : Option String → String
trimmed_sender none = ""
trimmed_sender (some s) = trim_space s

abbrev json_user : Option Payload → String
json_user none = ""
json_user (some p) = p.user_id

abbrev json_message : Option Payload → String
json_message none = ""
json_message (some p) = p.message

unfoldable pub user_id_from_message : Message → String
unfolding trim_space
user_id_from_message m = or_else (json_user m.json) (trimmed_sender m.sender)

unfoldable pub sender_name : Message → String
unfolding trim_space
sender_name m = or_else (trimmed_sender m.sender) (or_else (trim_space (json_user m.json)) "player")

unfoldable pub session_id_for : Message → String
unfolding extract_room_id user_id_from_message sender_name trim_space
session_id_for m =
    trim_space (extract_room_id m)
    ⧺ ":"
    ⧺ trim_space (or_else (user_id_from_message m) (sender_name m))

unfoldable pub message_text : Message → String
unfolding trim_space
message_text m = or_else (trim_space m.msg) (trim_space (json_message m.json))

-- The number that digits stand for, after those read so far.
unfoldable pub number_from : ℕ → String → Option ℕ
number_from n String.[] = some n
number_from n (String.◌∷◌ c s) =
    let rest = number_from (n * 10 + (code c - 48)) s in if is_digit c then rest else none

abbrev at_most : ℕ → Option ℕ → Bool
at_most bound none = false
at_most bound (some n) = leb n bound

-- At least one digit, and a number within the bound.
unfoldable pub number_within : ℕ → String → Bool
unfolding number_from
number_within bound String.[] = false
number_within bound (String.◌∷◌ c s) = at_most bound (number_from 0 (String.◌∷◌ c s))

-- strconv.ParseInt(s, 10, 64) succeeds.
unfoldable pub parses_int : String → Bool
unfolding number_within
parses_int String.[] = false
parses_int (String.◌∷◌ c s) =
    if nat_eq (code c) 43
    then number_within (2 ^ 63 - 1) s
    else if nat_eq (code c) 45
    then number_within (2 ^ 63) s
    else number_within (2 ^ 63 - 1) (String.◌∷◌ c s)

abbrev pub has_json : Option Payload → Bool
has_json none = false
has_json (some p) = true

unfoldable pub room_allowed : List String → Message → Bool
unfolding extract_room_id parses_int
room_allowed allowed m =
    has_json m.json
    && not (extract_room_id m == "")
    && parses_int (extract_room_id m)
    && contains allowed (extract_room_id m)

unfoldable pub folds_to : (Char → Char) → List String → String → Bool
unfolding trim_space equal_fold
folds_to orbit [] name = false
folds_to orbit (i ∷ is) name = equal_fold orbit (trim_space i) name || folds_to orbit is name

unfoldable pub is_ignored_sender : (Char → Char) → List String → String → Bool
unfolding trim_space folds_to
is_ignored_sender orbit ignored name =
    if trim_space name == "" then false else folds_to orbit ignored (trim_space name)

-- The rooms that are not blank, trimmed, each where it comes first and is not among the seen ones
unfoldable pub distinct_from : List String → List String → List String
unfolding trim_space
distinct_from seen [] = []
distinct_from seen (r ∷ rs) =
    let skipped = distinct_from seen rs in
    let kept = distinct_from (trim_space r ∷ seen) rs in
    if trim_space r == ""
    then skipped
    else if contains seen (trim_space r)
    then skipped
    else trim_space r ∷ kept

unfoldable pub prioritize_rooms : List String → String → List String
unfolding distinct_from trim_space
prioritize_rooms rooms current =
    if trim_space current == ""
    then rooms
    else trim_space current ∷ distinct_from (trim_space current ∷ []) rooms
