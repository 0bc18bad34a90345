-- ===== src/Service/Undone.antt =====
-- Undo (internal/service/chess/service.go) takes back the last two moves, and succeeds.
use cheese_kakao_talk_bot.Prelude.{
  ◌-◌, ◌≤◌, String, ◌≡◌, refl, ◌∙◌, ap, true, false, List, [], ◌∷◌, ◌++◌, All, length, Option, some,
  ltb, arith, length-append,
}
use cheese_kakao_talk_bot.Service.Types.{SessionMeta, SessionIdentity, SessionPayload, SessionState}
use cheese_kakao_talk_bot.Service.State.{
  Result, ok, err, Fate, sound, Cache, put, Data, Store, lift,
}
use cheese_kakao_talk_bot.Service.Environment.{Environment, Moment}
use cheese_kakao_talk_bot.Service.Labels.{derive_identity, ensure_room_allowed, session_key}
use cheese_kakao_talk_bot.Service.Sessions.{
  load_session, save_session, with_preset, replay_session, state_from_game, apply_player_name,
}
use cheese_kakao_talk_bot.Service.Play.{named_payload}
use cheese_kakao_talk_bot.Service.Manage.{
  first_moves, found_session, show, take_back, undo_to, undo_found, undo,
}
use cheese_kakao_talk_bot.Service.Triples.{
  Post, Both, Triple, Triple-pure, Triple-lift, Triple-call, Triple-bind, Triple-attempt,
}
use cheese_kakao_talk_bot.Service.Keeping.{Any, Keeps-then}
use cheese_kakao_talk_bot.Service.Steps.{Keeps-fetch_profile}
use cheese_kakao_talk_bot.Service.Turns.{Quiet, allows_Quiet}
use cheese_kakao_talk_bot.Service.Replays.{Leads-prefix}
use cheese_kakao_talk_bot.Service.Sane.{Playable}

-- No fault.
abbrev pub Sound : Fate → Type 0
Sound t = t ≡ sound

-- No error.
abbrev pub Never : {D : Type 0} → D → Type 0
Never d = true ≡ false

first_moves-length : (ms xs ys : List String) → first_moves (length ms) (ms ++ xs ++ ys) ≡ ms
unfolding first_moves
first_moves-length [] xs ys = refl
first_moves-length (m ∷ ms) xs ys = ap (λ ns. m ∷ ns) (first_moves-length ms xs ys)

-- The moves without the last two are those before a move and its answer.
pub first_moves-append :
    (ms : List String) (a b : String)
    → first_moves (length (ms ++ (a ∷ []) ++ (b ∷ [])) - 2) (ms ++ (a ∷ []) ++ (b ∷ [])) ≡ ms
first_moves-append ms a b =
    let two = length-append (ms ++ (a ∷ [])) (b ∷ []) in
    let one = length-append ms (a ∷ []) in
    let count : length (ms ++ (a ∷ []) ++ (b ∷ [])) - 2 ≡ length ms = omega (arith, two, one) in
    rw count (first_moves-length ms (a ∷ []) (b ∷ []))

module _ (E : Environment) (t : Moment) (meta : SessionMeta) where
  abbrev who : SessionIdentity
  who = derive_identity E meta

  -- The stored session and the answer have the moves of `old` but the last two.
  pub record Undone (s0 : Cache SessionPayload) (old : SessionPayload) (out : SessionState)
      (d : Data E.floats) : Type 0 where
    pub stored : SessionPayload
    pub is_stored : d.sessions ≡ put (session_key E who.session_id) (some stored) s0
    pub stored_moves : stored.moves ≡ first_moves (length old.moves - 2) old.moves
    pub shown_moves : out.moves ≡ first_moves (length old.moves - 2) old.moves

  module _ (s0 : Cache SessionPayload) where
    Triple-allowed :
        ensure_room_allowed E meta ≡ ok tt
        → Triple Sound (Quiet E s0) (lift (ensure_room_allowed E meta)) (λ u. Quiet E s0) Never
    Triple-allowed h = rw h (Triple-lift (ok tt) (λ d q. q))

    Triple-load :
        (old : SessionPayload)
        → with_preset (s0 (session_key E who.session_id)) ≡ some old
        → Triple Sound
            (Quiet E s0)
            (load_session E who.session_id)
            (Both (λ o. o ≡ some old) (Quiet E s0))
            Never
    unfolding load_session
    Triple-load old h =
        Keeps-then _ _
          (Triple-call {Q = Both (λ o. o ≡ s0 (session_key E who.session_id)) (Quiet E s0)} _
            (λ d q. record { value = ap (λ c. c (session_key E who.session_id)) q.same; rest = q })
            (λ e d q. absurd (cc)) (λ e d q. absurd (cc)))
          (λ o e. Triple-pure _ (λ d q. record { value = ap with_preset e ∙ h; rest = q }))

    quiet :
        {A : Type 0} (r : Result A) (d : Data E.floats)
        → Post (Both Any (Quiet E s0)) (Quiet E s0) r d
        → Quiet E s0 d
    quiet (ok a) d b = b.rest
    quiet (err e) d q = q

    -- The state that is shown has the session's moves.
    Triple-show :
        (p : SessionPayload) (g : E.chess.Play)
        → Triple Sound
            (Quiet E s0)
            (show E t meta p g)
            (Both (λ out. out.moves ≡ p.moves) (Quiet E s0))
            Never
    unfolding show apply_player_name state_from_game
    Triple-show p g =
        Triple-bind _ _
          (Triple-attempt _ (Keeps-fetch_profile E Sound (allows_Quiet E s0).reads who true))
          (λ r. Triple-pure _ (λ d q. record { value = refl; rest = quiet r d q }))

    Triple-save :
        (p : SessionPayload)
        → Triple Sound
            (Quiet E s0)
            (save_session E t.now who.session_id p)
            (λ u d.
              d.sessions
              ≡ put (session_key E who.session_id) (some (record p { updated_at = t.now })) s0)
            Never
    unfolding save_session
    Triple-save p =
        Triple-call _
          (λ d q.
            ap (put (session_key E who.session_id) (some (record p { updated_at = t.now }))) q.same)
          (λ e d q. absurd (cc)) (λ e d q. absurd (cc))

    Triple-undo_to :
        (old p : SessionPayload) (g : E.chess.Play)
        → replay_session E p.moves ≡ ok g
        → p.moves ≡ first_moves (length old.moves - 2) old.moves
        → Triple Sound (Quiet E s0) (undo_to E t meta p) (Undone s0 old) Never
    unfolding undo_to apply_player_name
    Triple-undo_to old p g hg hm =
        Triple-bind _ _ (rw hg (Triple-lift {Q = λ x. Quiet E s0} (ok g) (λ d q. q))) λ x.
          Keeps-then _ _ (Triple-show p x) λ s hs.
            Triple-bind _ _ (Triple-save (named_payload E t meta p x)) λ u. Triple-pure s λ d q.
              record {
                stored = record (named_payload E t meta p x) { updated_at = t.now };
                is_stored = q;
                stored_moves = hm;
                shown_moves = hs ∙ hm;
              }

    Triple-undo_found :
        (old : SessionPayload)
        → Playable E old.moves
        → 2 ≤ length old.moves
        → Triple Sound (Quiet E s0) (undo_found E t meta old) (Undone s0 old) Never
    unfolding undo_found take_back replay_session
    Triple-undo_found old (g, l) h =
        let (g', l') = Leads-prefix E (length old.moves - 2) old.moves E.chess.new_game g l in
        let enough : ltb (length old.moves) 2 ≡ false = ground (arith, h) in
        rw enough (Triple-undo_to old (take_back E t meta old) g' l'.replayed refl)

    Triple-found :
        (old : SessionPayload) (o : Option SessionPayload)
        → o ≡ some old
        → Triple Sound
            (Quiet E s0)
            (found_session E t meta o)
            (Both (λ p. p ≡ old) (Quiet E s0))
            Never
    unfolding found_session
    Triple-found old o h = rw h (Triple-pure old (λ d q. record { value = refl; rest = q }))

    Triple-Undone :
        (old p : SessionPayload)
        → p ≡ old
        → Playable E old.moves
        → 2 ≤ length old.moves
        → Triple Sound (Quiet E s0) (undo_found E t meta p) (Undone s0 old) Never
    Triple-Undone old p h l n = rw h (Triple-undo_found old l n)

    Triple-undo :
        (old : SessionPayload)
        → ensure_room_allowed E meta ≡ ok tt
        → with_preset (s0 (session_key E who.session_id)) ≡ some old
        → Playable E old.moves
        → 2 ≤ length old.moves
        → Triple Sound (Quiet E s0) (undo E t meta) (Undone s0 old) Never
    unfolding undo
    Triple-undo old allowed found l n = Triple-bind _ _ (Triple-allowed allowed) λ u.
        Keeps-then _ _ (Triple-load old found)
          λ o ho. Keeps-then _ _ (Triple-found old o ho) (λ p hp. Triple-Undone old p hp l n)

-- Undo succeeds, when no call of the cache or the database fails, in a room that is allowed, if the
-- player's session has at least two moves and can be replayed: the stored session and the answer
-- have its moves but the last two.
pub undo-Undone :
    (E : Environment) (t : Moment) (meta : SessionMeta) (w : Store E.floats) (old : SessionPayload)
    → All Sound w.fates
    → ensure_room_allowed E meta ≡ ok tt
    → with_preset (w.content.sessions (session_key E (derive_identity E meta).session_id))
      ≡ some old
    → Playable E old.moves
    → 2 ≤ length old.moves
    → Post
        (Undone E t meta w.content.sessions old)
        Never
        (undo E t meta w).0
        (undo E t meta w).1.content
undo-Undone E t meta w old fs allowed found l n =
    ((Triple-undo E t meta w.content.sessions old allowed found l n).at w fs
      (record { same = refl })).1
