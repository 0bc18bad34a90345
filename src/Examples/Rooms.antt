-- ===== src/Examples/Rooms.antt =====
-- Rooms of a message at concrete inputs.
use cheese_kakao_talk_bot.Prelude.{◌==◌, ◌≡◌, ◌≢◌, refl, ap, true, false, [], ◌∷◌, some, contains}
use cheese_kakao_talk_bot.Text.{trim_space, trim_left, trim_right, is_space}
use cheese_kakao_talk_bot.Rooms.{
  Message, digits_of, extract_room_id, room_allowed, prioritize_rooms, sanitize_room_id,
  sanitize_text, replace_hidden, parses_int, number_within, number_from,
}
use cheese_kakao_talk_bot.Rooms.Prioritized.{IsOrdered, prioritize_rooms-IsOrdered}
use cheese_kakao_talk_bot.Rooms.Allowed.{room_allowed-listed}

abbrev hello : Message
hello = record {
  msg = "hello";
  room = "chess club";
  sender = some "Alice";
  json = some (record { user_id = "7"; room_id = " 18 "; chat_id = ""; message = "" });
}

hello_allowed : room_allowed ("17" ∷ "18" ∷ []) hello ≡ true
unfolding room_allowed extract_room_id sanitize_room_id digits_of sanitize_text replace_hidden
    trim_space trim_left trim_right is_space parses_int number_within number_from contains
hello_allowed = refl

room_allowed-listed_example :
    (contains ("17" ∷ "18" ∷ []) (extract_room_id hello) ≡ true)
    × (digits_of (extract_room_id hello) ≡ extract_room_id hello)
room_allowed-listed_example = room_allowed-listed ("17" ∷ "18" ∷ []) hello hello_allowed

named : trim_space " r2 " ≢ ""
unfolding trim_space trim_left trim_right is_space
named = λ e. let other : false ≡ true = ap (λ s. s == "") e in absurd (cc)

prioritize_rooms-IsOrdered_example :
    IsOrdered
      ("r1" ∷ "" ∷ "r2" ∷ "r1" ∷ [])
      " r2 "
      (prioritize_rooms ("r1" ∷ "" ∷ "r2" ∷ "r1" ∷ []) " r2 ")
prioritize_rooms-IsOrdered_example =
    prioritize_rooms-IsOrdered ("r1" ∷ "" ∷ "r2" ∷ "r1" ∷ []) " r2 " named
