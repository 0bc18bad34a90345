-- ===== src/Service/Timeouts.antt =====
-- The time that the engine is given (evaluationTimeout of internal/service/chess/service.go).
use cheese_kakao_talk_bot.Prelude.{
  refl, ap, ◌∙◌, ltb, ℕ, zero, suc, ◌≤◌, ◌<◌, ◌^◌, ◌%◌, if◌then◌else◌, ◌+◌, ◌*◌, String, ◌≡◌, arith,
  sym,
}
use cheese_kakao_talk_bot.Humanizer.{int_less}
use cheese_kakao_talk_bot.Presets.Types.{ℤ, pos, negsuc, DifficultyPreset}
use cheese_kakao_talk_bot.Presets.Registry.{Registry, Found, found, unknown_name, get_preset}
use cheese_kakao_talk_bot.Service.Environment.{Environment}
use cheese_kakao_talk_bot.Service.Assist.{
  evaluation_timeout, evaluation_timeout_from_preset, move_timeout, depth_timeout, clamp_depth,
  timeout_found, times_wrapped, millisecond, second,
}

-- The milliseconds of a preset's limit of a move's time.
abbrev pub move_millis : ℤ → ℕ
move_millis (pos n) = n
move_millis (negsuc n) = 0

-- The most that is allowed for here, a hundred years and more
abbrev pub longest : ℕ
longest = 4000000000000

move_timeout-double :
    (m : ℤ) (other : ℕ)
    → move_millis m ≤ longest
    → other ≤ 15 * second
    → (2 * move_millis m * millisecond ≤ move_timeout m other)
      × (move_timeout m other ≤ 2 * (longest + 800) * millisecond)
move_timeout-double (pos zero) other b h = (omega arith, omega (arith, h))
move_timeout-double (pos (suc n)) other b h = (omega (arith, b), omega (arith, b))
move_timeout-double (negsuc n) other b h = (omega arith, omega (arith, h))

clamp_depth-bounds : (n : ℕ) → n < 2 ^ 64 → clamp_depth n ≤ 15 * second
clamp_depth-bounds n h = ground arith

depth_timeout-bounds : (d : ℤ) → depth_timeout d ≤ 15 * second
depth_timeout-bounds (pos zero) = omega arith
depth_timeout-bounds (pos (suc n)) =
    clamp_depth-bounds (times_wrapped (times_wrapped (n + 1) 200) millisecond) (omega arith)
depth_timeout-bounds (negsuc n) = omega arith

-- The greater of two times
abbrev pub greater : ℕ → ℕ → ℕ
greater a b = if ltb a b then b else a

-- What is enough time, in nanoseconds that are no negative int64, for the preset that a name stands
-- for.
pub record Enough (E : Environment) (f : Found E.floats) (time : ℕ) : Type 0 where
  pub eight_seconds : 8 * second ≤ time
  pub no_overflow : time < 2 ^ 63
  pub twice_and_two :
      (p : DifficultyPreset E.floats)
      → f ≡ found p
      → move_millis p.move_time_millis ≤ longest
      → (2 * move_millis p.move_time_millis + 2000) * millisecond ≤ time
  pub exact :
      (p : DifficultyPreset E.floats)
      → f ≡ found p
      → 1 ≤ move_millis p.move_time_millis
      → move_millis p.move_time_millis ≤ longest
      → time
        ≡ greater ((2 * (move_millis p.move_time_millis + 800) + 2000) * millisecond) (8 * second)
  pub without_limit :
      (p : DifficultyPreset E.floats)
      → f ≡ found p
      → move_millis p.move_time_millis ≡ 0
      → time ≤ 17 * second

-- The last steps of evaluationTimeout, on the time of the preset
abbrev buffered : ℕ → ℕ
buffered base =
    let t = (base + 2 * second) % 2 ^ 64 in if int_less t (8 * second) then 8 * second else t

buffered-bounds : (base : ℕ) → (8 * second ≤ buffered base) × (buffered base < 2 ^ 63)
buffered-bounds base = (ground arith, ground arith)

buffered-least :
    (base least : ℕ)
    → least ≤ base
    → base ≤ 2 * (longest + 800) * millisecond
    → least + 2 * second ≤ buffered base
buffered-least base least h k = ground arith

buffered-exact :
    (base : ℕ)
    → base ≤ 2 * (longest + 800) * millisecond
    → buffered base ≡ greater (base + 2 * second) (8 * second)
buffered-exact base k = ground arith

move_timeout-exact :
    (m : ℤ) (other : ℕ)
    → 1 ≤ move_millis m
    → move_millis m ≤ longest
    → move_timeout m other ≡ 2 * (move_millis m + 800) * millisecond
move_timeout-exact (pos zero) other a b = absurd (omega (arith, a))
move_timeout-exact (pos (suc n)) other a b = omega (arith, b)
move_timeout-exact (negsuc n) other a b = absurd (omega (arith, a))

move_timeout-other : (m : ℤ) (other : ℕ) → move_millis m ≡ 0 → move_timeout m other ≡ other
move_timeout-other (pos zero) other h = refl
move_timeout-other (pos (suc n)) other h = absurd (omega (arith, h))
move_timeout-other (negsuc n) other h = refl

buffered-move :
    (m : ℤ) (other : ℕ)
    → 1 ≤ move_millis m
    → move_millis m ≤ longest
    → buffered (move_timeout m other)
      ≡ greater ((2 * (move_millis m + 800) + 2000) * millisecond) (8 * second)
buffered-move m other a b =
    let e = move_timeout-exact m other a b in
    let sum : 2 * (move_millis m + 800) * millisecond + 2 * second
        ≡ (2 * (move_millis m + 800) + 2000) * millisecond =
      omega arith in
    rw e (
      buffered-exact (2 * (move_millis m + 800) * millisecond) (omega (arith, b))
      ∙ ap (λ t. greater t (8 * second)) sum)

buffered-other : (base : ℕ) → base ≤ 15 * second → buffered base ≤ 17 * second
buffered-other base h = ground arith

timeout_found-Enough : (E : Environment) (f : Found E.floats) → Enough E f (timeout_found E f)
unfolding evaluation_timeout_from_preset
timeout_found-Enough E (unknown_name e) = record {
  eight_seconds = omega arith;
  no_overflow = omega arith;
  twice_and_two = λ p h b. absurd (cc);
  exact = λ p h a b. absurd (cc);
  without_limit = λ p h a. absurd (cc);
}
timeout_found-Enough E (found p) =
    let base = evaluation_timeout_from_preset E p in
    record {
      eight_seconds = (buffered-bounds base).0;
      no_overflow = (buffered-bounds base).1;
      twice_and_two = λ q h b.
          let same : p ≡ q = cc in
          let within : move_millis p.move_time_millis ≤ longest = rw same b in
          let (long, short) =
            move_timeout-double p.move_time_millis (depth_timeout p.depth_cap) within
              (depth_timeout-bounds p.depth_cap) in
          rw (sym same) (
            omega (
              arith,
              buffered-least base (2 * move_millis p.move_time_millis * millisecond) long short,
            ));
      exact = λ q h a b.
          let same : p ≡ q = cc in
          rw (sym same)
            (buffered-move p.move_time_millis (depth_timeout p.depth_cap) (rw same a) (rw same b));
      without_limit = λ q h a.
          let same : p ≡ q = cc in
          let none_given : move_millis p.move_time_millis ≡ 0 = rw same a in
          rw (move_timeout-other p.move_time_millis (depth_timeout p.depth_cap) none_given)
            (buffered-other (depth_timeout p.depth_cap) (depth_timeout-bounds p.depth_cap));
    }

-- The engine is given at least eight seconds, and not a negative time, whatever wraps around. If the
-- name stands for a preset that allows at most 4,000,000,000,000 milliseconds for a move, it is given
-- at least two seconds more than twice that time; if the preset allows some time, exactly two seconds
-- more than twice 800 milliseconds more than that, or eight seconds if this is less; and if it has no
-- such limit, at most seventeen seconds.
pub evaluation_timeout-Enough :
    (E : Environment) (r : Registry E.floats) (name : String)
    → Enough E (get_preset E.floats r name) (evaluation_timeout E r name)
unfolding evaluation_timeout
evaluation_timeout-Enough E r name = timeout_found-Enough E (get_preset E.floats r name)
