-- ===== src/Examples/Service.antt =====
-- The single-player service at concrete inputs: a toy chess library, and an engine that answers
-- "e7e5".
use cheese_kakao_talk_bot.Prelude.{
  ℕ, String, ◌==◌, ◌≡◌, ◌≢◌, refl, List, [], ◌∷◌, ◌⊎◌, eq_iff, eq_refl, none, some, false, inl, inr,
  arith, Bool-cases, if◌then◌else◌,
}
use cheese_kakao_talk_bot.Text.{trim_space, trim_left, trim_right, is_space, to_lower, lower_char}
use cheese_kakao_talk_bot.Integers.{◌-ℤ◌, ◌+ℤ◌}
use cheese_kakao_talk_bot.Presets.Types.{ℤ, pos}
use cheese_kakao_talk_bot.Presets.Registry.{missing, get_preset}
use cheese_kakao_talk_bot.Presets.Defaults.{default_presets}
use cheese_kakao_talk_bot.Memrepo.{
  new_memory_repository, get_game_by_session, session_key as game_key, insert_game, add_game, find,
}
use cheese_kakao_talk_bot.Service.Types.{
  SessionMeta, SessionIdentity, SessionPayload, Evaluation, evaluated,
}
use cheese_kakao_talk_bot.Service.State.{ok, Fate, sound, dropped, lost, put, Data, Store}
use cheese_kakao_talk_bot.Service.Environment.{Maths, Environment, Moment}
use cheese_kakao_talk_bot.Service.Labels.{
  normalized, ensure_room_allowed, derive_identity, session_key, room_set,
}
use cheese_kakao_talk_bot.Service.Sessions.{with_preset, replay_from}
use cheese_kakao_talk_bot.Service.Finish.{persist_finished_game, no_result}
use cheese_kakao_talk_bot.Service.Assist.{evaluation_timeout}
use cheese_kakao_talk_bot.Service.Play.{uci_text, play}
use cheese_kakao_talk_bot.Service.Manage.{undo}
use cheese_kakao_talk_bot.Service.Triples.{Post, Both}
use cheese_kakao_talk_bot.Service.Replays.{RoundTrips}
use cheese_kakao_talk_bot.Service.Sane.{Sane, Playable}
use cheese_kakao_talk_bot.Service.Requests.{
  Asked, to_start, to_play, to_undo, to_resign, serve, serve-Sane,
}
use cheese_kakao_talk_bot.Service.Effects.{Played, play-Played}
use cheese_kakao_talk_bot.Service.Turns.{Quiet}
use cheese_kakao_talk_bot.Service.Once.{AsRecorded, SameRepo, persist_finished_game-once}
use cheese_kakao_talk_bot.Service.Timeouts.{Enough, evaluation_timeout-Enough}
use cheese_kakao_talk_bot.Service.Undone.{Never, Undone, undo-Undone}
use cheese_kakao_talk_bot.Examples.Chess.{same_char, decode, lenient}
use cheese_kakao_talk_bot.Examples.Presets.{hundredths, default_presets-IsValid}
use cheese_kakao_talk_bot.Examples.Repository.{played, two_games}

-- Whole numbers in place of `float64`.
abbrev whole : Maths
whole = record {
  F = ℤ;
  of_int = λ a. a;
  ratio = λ m n. pos m;
  plus = λ a b. a +ℤ b;
  minus = λ a b. a -ℤ b;
  times = λ a b. a;
  over = λ a b. a;
  pow = λ a b. a;
  round = λ a. a;
}

abbrev toy_service : Environment
toy_service = record {
  chess = lenient;
  floats = hundredths;
  maths = whole;
  beyond = same_char;
  orbit = same_char;
  hash = λ s. s;
  styles = missing;
  config = record {
    default_preset = "level3";
    history_limit = 10;
    allowed_rooms = [];
    default_opening_style = "";
  };
}

abbrev answers : String → List String → Evaluation
answers preset moves = evaluated (record {
  preset_name = preset;
  chosen = "e7e5";
  best_move = "";
  candidates = [];
  blunder = false;
  duration = pos 1;
})

abbrev moment : ℕ → Moment
moment n = record { now = n; uuid = "s1"; evaluate = answers }

abbrev alice : SessionMeta
alice = record { session_id = "room1:alice"; room = "room1"; sender = "Alice" }

abbrev empty_data : Data hundredths
empty_data = record {
  sessions = λ k. none;
  profiles = λ k. none;
  repo = new_memory_repository;
  registry = default_presets hundredths;
}

empty_data-Sane : Sane toy_service empty_data
empty_data-Sane = record {
  sessions_play = λ k p e. absurd (cc);
  cached_count = λ k p e. absurd (cc);
  stored_count = tt;
  presets_valid = default_presets-IsValid;
}

-- The texts that the toy library reads.
abbrev IsRead : String → Type 0
IsRead m = (m ≡ "e2e4") ⊎ (m ≡ "e7e5") ⊎ (m ≡ "e2e5")

decode-IsRead : (g : List String) (s m : String) → decode g s ≡ some m → IsRead m
decode-IsRead g s m h = elim (Bool-cases (s == "e2e4")) [
  | inl a ↦ inl (ground (arith, h, eq_iff s "e2e4"))
  | inr a ↦ elim (Bool-cases (s == "e7e5")) [
    | inl b ↦ inr (inl (ground (arith, h, eq_iff s "e7e5")))
    | inr b ↦ inr (inr (ground (arith, h, eq_iff s "e2e5")))
  ]
]

read_back :
    (g : List String) (m : String)
    → IsRead m
    → decode g (normalized toy_service (uci_text toy_service g m)) ≡ some m
unfolding normalized uci_text to_lower lower_char trim_space trim_left trim_right is_space
read_back g m (inl e) = rw e refl
read_back g m (inr (inl e)) = rw e refl
read_back g m (inr (inr e)) = rw e refl

pawn_move :
    (g : List String) (s m : String) → (if s == "e4" then some "e2e4" else none) ≡ some m → IsRead m
pawn_move g s m h = elim (Bool-cases (s == "e4")) [
  | inl a ↦ inl (ground (arith, h, a))
  | inr a ↦ absurd (ground (arith, h, a))
]

toy_service-RoundTrips : RoundTrips toy_service
toy_service-RoundTrips = record {
  from_san = λ p s m h. read_back p m (pawn_move p s m h);
  from_uci = λ p s m h. read_back p m (decode-IsRead p s m h);
}

abbrev faulty : Store hundredths
faulty = record {
  content = empty_data;
  fates = sound ∷ sound ∷ sound ∷ sound ∷ lost ∷ sound ∷ dropped ∷ [];
}

abbrev asked : List Asked
asked =
    record { request = to_start "level1" false; moment = moment 1; by = alice }
    ∷ record { request = to_play "e4"; moment = moment 2; by = alice }
    ∷ record { request = to_undo; moment = moment 3; by = alice }
    ∷ record { request = to_resign; moment = moment 4; by = alice }
    ∷ []

serve-Sane_example : Sane toy_service (serve toy_service asked faulty).content
serve-Sane_example = serve-Sane toy_service toy_service-RoundTrips asked faulty empty_data-Sane

-- Alice's session after two moves.
abbrev two_moves : SessionPayload
two_moves = record {
  session_uuid = "s1";
  player_hash = "room1:alice";
  room_hash = "room1";
  player_name = "Alice";
  preset = "level1";
  moves = "e2e4" ∷ "e7e5" ∷ [];
  started_at = 1;
  updated_at = 2;
  auto_assist = false;
}

abbrev in_game : List Fate → Store hundredths
in_game ts = record {
  content = record empty_data {
    sessions =
        put (session_key toy_service (derive_identity toy_service alice).session_id)
          (some two_moves) (λ k. none);
  };
  fates = ts;
}

not_lost : (t : Fate) → t ≡ sound → t ≢ lost
not_lost t h = λ e. absurd (cc)

play-Played_example :
    Post
      (Played toy_service
        (in_game (sound ∷ [])).content.sessions
        (moment 3)
        alice
        (trim_space "e4"))
      (Quiet toy_service (in_game (sound ∷ [])).content.sessions)
      (play toy_service (moment 3) alice "e4" (in_game (sound ∷ []))).0
      (play toy_service (moment 3) alice "e4" (in_game (sound ∷ []))).1.content
play-Played_example =
    play-Played toy_service (moment 3) alice "e4" (in_game (sound ∷ [])) (not_lost sound refl, tt)

allowed : ensure_room_allowed toy_service alice ≡ ok tt
unfolding ensure_room_allowed room_set
allowed = refl

found :
    with_preset (
      (in_game (sound ∷ [])).content.sessions
        (session_key toy_service (derive_identity toy_service alice).session_id))
    ≡ some two_moves
found = rw (eq_refl (session_key toy_service (derive_identity toy_service alice).session_id)) refl

two_moves-Playable : Playable toy_service two_moves.moves
unfolding replay_from normalized to_lower lower_char trim_space trim_left trim_right is_space
two_moves-Playable = ("e7e5" ∷ "e2e4" ∷ [], record { replayed = refl })

undo-Undone_example :
    Post
      (Undone toy_service (moment 3) alice (in_game (sound ∷ [])).content.sessions two_moves)
      Never
      (undo toy_service (moment 3) alice (in_game (sound ∷ []))).0
      (undo toy_service (moment 3) alice (in_game (sound ∷ []))).1.content
undo-Undone_example =
    undo-Undone toy_service (moment 3) alice (in_game (sound ∷ [])) two_moves (refl, tt) allowed
      found two_moves-Playable (omega arith)

-- The session s1 is recorded.
abbrev recorded_store : Store hundredths
recorded_store = record {
  content = record empty_data { repo = two_games };
  fates = sound ∷ dropped ∷ [];
}

abbrev p1 : SessionIdentity
p1 = record { session_id = "room1:alice"; room_hash = "r1"; player_hash = "p1" }

recorded :
    get_game_by_session "s1" "p1" recorded_store.content.repo
    ≡ some (record (played "s1" 30) { id = 1 })
unfolding get_game_by_session insert_game game_key find trim_space add_game
recorded = refl

persist_finished_game-once_example :
    Post
      (Both (AsRecorded (record (played "s1" 30) { id = 1 })) (SameRepo toy_service two_games))
      (SameRepo toy_service two_games)
      (persist_finished_game toy_service 9 p1 two_moves [] no_result recorded_store).0
      (persist_finished_game toy_service 9 p1 two_moves [] no_result recorded_store).1.content
persist_finished_game-once_example =
    persist_finished_game-once toy_service 9 p1 two_moves [] no_result recorded_store
      (record (played "s1" 30) { id = 1 }) recorded

evaluation_timeout-Enough_example :
    Enough toy_service
      (get_preset hundredths (default_presets hundredths) "level8")
      (evaluation_timeout toy_service (default_presets hundredths) "level8")
evaluation_timeout-Enough_example =
    evaluation_timeout-Enough toy_service (default_presets hundredths) "level8"
