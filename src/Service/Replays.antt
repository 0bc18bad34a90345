-- ===== src/Service/Replays.antt =====
-- Moves that can be played again (replaySession of internal/service/chess/service.go): a prefix of
-- them can, and so can one more move that was made on the board.
use cheese_kakao_talk_bot.Prelude.{
  ℕ, zero, suc, String, ◌≡◌, refl, List, [], ◌∷◌, ◌++◌, Option, none, some,
}
use cheese_kakao_talk_bot.Service.State.{Result, ok}
use cheese_kakao_talk_bot.Service.Environment.{Environment}
use cheese_kakao_talk_bot.Service.Labels.{normalized}
use cheese_kakao_talk_bot.Service.Sessions.{replay_from, replay_move, replay_on}
use cheese_kakao_talk_bot.Service.Manage.{first_moves}
use cheese_kakao_talk_bot.Service.Play.{uci_text}

-- The UCI text of a move that was read decodes to the move, as the service writes and reads it.
pub record RoundTrips (E : Environment) : Type 0 where
  pub from_san :
      (p : E.chess.Position) (s : String) (m : E.chess.Move)
      → E.chess.decode_san p s ≡ some m
      → E.chess.decode_uci p (normalized E (uci_text E p m)) ≡ some m
  pub from_uci :
      (p : E.chess.Position) (s : String) (m : E.chess.Move)
      → E.chess.decode_uci p s ≡ some m
      → E.chess.decode_uci p (normalized E (uci_text E p m)) ≡ some m

module _ (E : Environment) where
  -- The moves lead from one board to another.
  pub record Leads (g : E.chess.Play) (ms : List String) (g' : E.chess.Play) : Type 0 where
    pub replayed : replay_from E ms g ≡ ok g'

  abbrev step : E.chess.Play → String → Option E.chess.Play
  step g m = replay_move E g (E.chess.decode_uci (E.chess.position g) (normalized E m))

  Leads-step :
      (g g' g'' : E.chess.Play) (m : String) (ms : List String)
      → step g m ≡ some g'
      → Leads g' ms g''
      → Leads g (m ∷ ms) g''
  unfolding replay_from
  Leads-step g g' g'' m ms e h = record { replayed = rw e h.replayed }

  replay_on-ok :
      (rest : E.chess.Play → Result E.chess.Play) (o : Option E.chess.Play) (g' : E.chess.Play)
      → replay_on E rest o ≡ ok g'
      → (h : E.chess.Play) × (o ≡ some h) × (rest h ≡ ok g')
  replay_on-ok rest none g' e = absurd (cc)
  replay_on-ok rest (some h) g' e = (h, refl, e)

  -- The first move and the others.
  first_of :
      (g g' : E.chess.Play) (m : String) (ms : List String)
      → Leads g (m ∷ ms) g'
      → (h : E.chess.Play) × (step g m ≡ some h) × Leads h ms g'
  unfolding replay_from
  first_of g g' m ms l =
      let (h, e, r) = replay_on-ok (replay_from E ms) (step g m) g' l.replayed in
      (h, e, record { replayed = r })

  pub Leads-snoc :
      (ms : List String) (g g' g'' : E.chess.Play) (m : String)
      → Leads g ms g'
      → step g' m ≡ some g''
      → Leads g (ms ++ (m ∷ [])) g''
  unfolding replay_from
  Leads-snoc [] g g' g'' m l e =
      let same : g ≡ g' = cc in Leads-step g g'' g'' m [] (rw same e) (record { replayed = refl })
  Leads-snoc (x ∷ ms) g g' g'' m l e =
      let (h, s, k) = first_of g g' x ms l in
      Leads-step g h g'' x _ s (Leads-snoc ms h g' g'' m k e)

  pub Leads-prefix :
      (n : ℕ) (ms : List String) (g g' : E.chess.Play)
      → Leads g ms g'
      → (h : E.chess.Play) × Leads g (first_moves n ms) h
  unfolding replay_from first_moves
  Leads-prefix zero ms g g' l = (g, record { replayed = refl })
  Leads-prefix (suc n) [] g g' l = (g, record { replayed = refl })
  Leads-prefix (suc n) (m ∷ ms) g g' l =
      let (h, s, k) = first_of g g' m ms l in
      let (h', k') = Leads-prefix n ms h g' k in (h', Leads-step g h h' m _ s k')
