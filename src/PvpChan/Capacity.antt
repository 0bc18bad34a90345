-- ===== src/PvpChan/Capacity.antt =====
-- A channel has at most two participants: what the transaction of Join keeps
-- (internal/pvpchan/manager.go).
use Prim.Native.Char.{Char}
use package.text.Mathlib.TextPositions.{len-append}
use Prim.Native.String.{len}
use cheese_kakao_talk_bot.Prelude.{
  ℕ, ◌+◌, ◌≤◌, String, ◌≡◌, ◌≢◌, refl, sym, ap, ◌∙◌, false, Option, none, some, inl, inr, arith,
  length, contains, leb, Bool-cases, eq-false_of_ne, eq_refl, if◌then◌else◌,
}
use cheese_kakao_talk_bot.Errors.{Result, ok, err, full}
use cheese_kakao_talk_bot.Redis.{Redis, Entry, text, set, added, insert, card_reply}
use cheese_kakao_talk_bot.Action.{World, exec, raise, run_all, continue, ◌>>=◌}
use cheese_kakao_talk_bot.Action.Ensures.{Holds, exec-Holds}
use cheese_kakao_talk_bot.Action.Answers.{Answers, call-Answers}
use cheese_kakao_talk_bot.PvpChan.Store.{key_meta, key_participants, key_rooms, key_user_idx}
use cheese_kakao_talk_bot.PvpChan.Join.{enter, join_commands}

-- As many members as SCARD counts; a text has none.
abbrev size : Option Entry → ℕ
size none = 0
size (some (text x)) = 0
size (some (set s)) = length s

size_of_reply : (e : Option Entry) (n : ℕ) → card_reply e ≡ ok n → size e ≡ n
unfolding card_reply
size_of_reply none n h = ground (arith, h)
size_of_reply (some (text x)) n h = absurd (cc)
size_of_reply (some (set s)) n h = ground (arith, h)

size-added : (m : String) (e : Option Entry) → size (added m e) ≤ size e + 1
unfolding added insert
size-added m none = omega arith
size-added m (some (text x)) = omega arith
size-added m (some (set s)) = elim (Bool-cases (contains s m)) [
  | inl e ↦ rw e (omega arith)
  | inr e ↦ rw e (omega arith)
]

-- The keys of a channel's rooms and of its participants differ in length.
rooms-ne-participants : (code : String) → key_rooms code ≢ key_participants code
unfolding key_rooms key_participants
rooms-ne-participants code e = omega (
  arith,
  ap len e,
  len-append (key_meta code) ":rooms",
  len-append (key_meta code) ":participants",
)

module _ (beyond : Char → Char) (R : Redis) (code : String) where
  pub record AtMostTwo (d : R.Db) : Type 0 where
    pub bound : size (R.look d (key_participants code)) ≤ 2

  module _ (room user : String) (apart : key_user_idx user ≢ key_participants code) where
    look-join_commands :
        (d : R.Db)
        → R.look (run_all (join_commands beyond R code room user) d).1 (key_participants code)
          ≡ added user (R.look d (key_participants code))
    unfolding run_all
    look-join_commands d =
        let k = key_participants code in
        rw
          (
            R.look-expire (key_user_idx user) _ k,
            R.look-sadd (key_user_idx user) code _ k,
            eq-false_of_ne (key_user_idx user) k apart,
            R.look-expire (key_rooms code) _ k,
            R.look-sadd (key_rooms code) room _ k,
            eq-false_of_ne (key_rooms code) k (rooms-ne-participants code),
            R.look-expire k _ k,
            R.look-sadd k user d k,
            eq_refl k,
          )
          refl

    -- At most one participant was counted.
    room_left :
        (d : R.Db) (n : ℕ)
        → card_reply (R.look d (key_participants code)) ≡ ok n
        → leb 2 n ≡ false
        → AtMostTwo (run_all (join_commands beyond R code room user) d).1
    room_left d n count few = record {
      bound =
          let one : n ≤ 1 = ground arith in
          rw (look-join_commands d) (
            omega (
              arith,
              size-added user (R.look d (key_participants code)),
              size_of_reply (R.look d (key_participants code)) n count,
              one,
            ));
    }

    abbrev scard_reads : (d : R.Db) → (R.scard (key_participants code) d).1 ≡ d
    scard_reads d = ap (λ p. p.1) (R.scard_lem (key_participants code) d)

    enter_at :
        (r : Result ℕ × World R)
        → Answers R AtMostTwo (R.scard (key_participants code)) scard_reads r
        → Holds R AtMostTwo
            (continue r.0
              (λ n. if leb 2 n then raise full else exec (join_commands beyond R code room user))
              r.1).1
    unfolding raise
    enter_at (err e, w) h = h.holds
    enter_at (ok n, w) h = elim (Bool-cases (leb 2 n)) [
      | inl e ↦ rw e (h.holds)
      | inr e ↦ rw e (
          exec-Holds (join_commands beyond R code room user) w
            (room_left w.db n
              (sym (ap (λ p. p.0) (R.scard_lem (key_participants code) w.db)) ∙ h.truth n refl) e)
            h.holds)
    ]

    -- If a channel has at most two participants, and what other clients do keeps that, then it has
    -- at most two after the transaction of a join, whether it enters, is refused, loses a race or
    -- is not answered; the key of the user's index must not be that of the participants.
    pub enter-AtMostTwo :
        (w : World R) → Holds R AtMostTwo w → AtMostTwo (enter beyond R code room user w).1.db
    unfolding enter ◌>>=◌
    enter-AtMostTwo w h =
        (enter_at _
          (call-Answers R AtMostTwo (R.scard (key_participants code)) scard_reads w h)).now
