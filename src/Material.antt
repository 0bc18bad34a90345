-- ===== src/Material.antt =====
-- Material and captured pieces of internal/service/chess/service.go: computeMaterial, and the
-- methods of MaterialScore and CapturedPieces.
pub mod Accounts
pub mod Shown
use cheese_kakao_talk_bot.Prelude.{
  ℕ, zero, suc, ◌+◌, ◌-◌, ◌*◌, Bool, true, false, ◌&&◌, ◌||◌, not, List, [], ◌∷◌, ◌++◌, length,
  Option, none, some, ltb, if◌then◌else◌,
}
use cheese_kakao_talk_bot.Integers.{from_difference}
use cheese_kakao_talk_bot.Presets.Types.{ℤ, pos, negsuc}
use cheese_kakao_talk_bot.ChessLib.{
  ChessLib, Side, white_side, black_side, no_side, Kind, pawn, knight, bishop, rook, queen, king,
}

-- initialPieceCounts of one side
abbrev pub initial_count : Kind → ℕ
initial_count pawn = 8
initial_count knight = 2
initial_count bishop = 2
initial_count rook = 2
initial_count queen = 1
initial_count king = 1

-- pieceValues; the king has none.
abbrev pub piece_value : Kind → ℕ
piece_value pawn = 1
piece_value knight = 3
piece_value bishop = 3
piece_value rook = 5
piece_value queen = 9
piece_value king = 0

abbrev pub same_kind : Kind → Kind → Bool
same_kind pawn pawn = true
same_kind knight knight = true
same_kind bishop bishop = true
same_kind rook rook = true
same_kind queen queen = true
same_kind king king = true
same_kind _ _ = false

abbrev pub same_side : Side → Side → Bool
same_side white_side white_side = true
same_side black_side black_side = true
same_side no_side no_side = true
same_side _ _ = false

-- materialBase
abbrev pub material_base : ℕ
material_base = 8 * 1 + 2 * 3 + 2 * 3 + 2 * 5 + 1 * 9 + 1 * 0

pub record MaterialScore : Type 0 where
  pub white : ℕ
  pub black : ℕ

unfoldable pub diff : MaterialScore → ℤ
diff m = from_difference m.white m.black

unfoldable pub captured_value : MaterialScore → Side → ℤ
captured_value m white_side = from_difference material_base m.black
captured_value m black_side = from_difference material_base m.white
captured_value m no_side = pos 0

pub record CapturedPieces : Type 0 where
  pub white : Kind → ℕ
  pub black : Kind → ℕ
  pub white_order : List Kind
  pub black_order : List Kind

abbrev pub order_of : CapturedPieces → Side → List Kind
order_of c white_side = c.white_order
order_of c black_side = c.black_order
order_of c no_side = []

unfoldable pub drop_kinds : ℕ → List Kind → List Kind
drop_kinds zero ks = ks
drop_kinds (suc n) [] = []
drop_kinds (suc n) (k ∷ ks) = drop_kinds n ks

-- result[i] = subset[len(subset)-1-i]
unfoldable pub backwards : List Kind → List Kind
backwards [] = []
backwards (k ∷ ks) = backwards ks ++ (k ∷ [])

-- Recent; a start below 0 is 0.
unfoldable pub recent : CapturedPieces → Side → ℤ → List Kind
unfolding drop_kinds backwards
recent c side (pos zero) = []
recent c side (pos (suc n)) =
    let order = order_of c side in backwards (drop_kinds (length order - suc n) order)
recent c side (negsuc n) = []

abbrev no_captures : CapturedPieces
no_captures = record { white = λ k. 0; black = λ k. 0; white_order = []; black_order = [] }

-- A rank or file from 0 to 7
abbrev eight : List ℕ
eight = 0 ∷ 1 ∷ 2 ∷ 3 ∷ 4 ∷ 5 ∷ 6 ∷ 7 ∷ []

abbrev on_file : ℕ → List ℕ → List (ℕ × ℕ)
on_file f [] = []
on_file f (r ∷ rs) = (f, r) ∷ on_file f rs

abbrev squares_from : List ℕ → List (ℕ × ℕ)
squares_from [] = []
squares_from (f ∷ fs) = on_file f eight ++ squares_from fs

abbrev pub squares : List (ℕ × ℕ)
squares = squares_from eight

abbrev pub count_if : Bool → ℕ → ℕ
count_if true n = n + 1
count_if false n = n

abbrev pub add_if : Bool → ℕ → ℕ → ℕ
add_if true v n = n + v
add_if false v n = n

module _ (C : ChessLib) where
  -- What a square adds to the total of a side, and to the count of a piece of it.
  abbrev pub total_with : Side → Option (Side × Kind) → ℕ → ℕ
  total_with side none n = n
  total_with side (some (s, k)) n = add_if (same_side s side) (piece_value k) n

  abbrev pub count_with : Side → Kind → Option (Side × Kind) → ℕ → ℕ
  count_with side piece none n = n
  count_with side piece (some (s, k)) n = count_if (same_side s side && same_kind k piece) n

  unfoldable pub total_on : Side → C.Position → List (ℕ × ℕ) → ℕ
  total_on side p [] = 0
  total_on side p ((f, r) ∷ qs) = total_with side (C.piece_at p f r) (total_on side p qs)

  unfoldable pub count_on : Side → Kind → C.Position → List (ℕ × ℕ) → ℕ
  count_on side piece p [] = 0
  count_on side piece p ((f, r) ∷ qs) =
      count_with side piece (C.piece_at p f r) (count_on side piece p qs)

  -- The square of the piece that a move takes; for an en passant it lies behind the target.
  abbrev pub capture_square : C.Position → C.Move → ℕ × ℕ
  capture_square p m =
      if C.is_en_passant m
      then (if same_side (C.turn p) white_side
          then ((C.target m).0, (C.target m).1 - 1)
          else ((C.target m).0, (C.target m).1 + 1))
      else C.target m

  abbrev one_more : Kind → (Kind → ℕ) → Kind → ℕ
  one_more k counts j = count_if (same_kind k j) (counts j)

  abbrev enter_for : Side → Kind → CapturedPieces → CapturedPieces
  enter_for white_side k c = record c {
    white = one_more k c.white;
    white_order = k ∷ c.white_order;
  }
  enter_for _ k c = record c { black = one_more k c.black; black_order = k ∷ c.black_order }

  abbrev enter_piece : C.Position → Option (Side × Kind) → CapturedPieces → CapturedPieces
  enter_piece p none c = c
  enter_piece p (some (s, k)) c = if same_kind k king then c else enter_for (C.turn p) k c

  abbrev enter_capture : C.Position → C.Move → CapturedPieces → CapturedPieces
  enter_capture p m c =
      let q = capture_square p m in
      if C.is_capture m || C.is_en_passant m then enter_piece p (C.piece_at p q.0 q.1) c else c

  -- The loop over the moves; the orders are the moves', the first first.
  unfoldable pub captures_of : List C.Position → List C.Move → CapturedPieces
  captures_of ps [] = no_captures
  captures_of [] (m ∷ ms) = no_captures
  captures_of (p ∷ ps) (m ∷ ms) = enter_capture p m (captures_of ps ms)

  -- A kind of which pieces are missing on the board counts those.
  abbrev pub with_missing : Side → C.Position → (Kind → ℕ) → Kind → ℕ
  with_missing side p counts king = counts king
  with_missing side p counts k =
      let current = count_on side k p squares in
      if ltb current (initial_count k) then initial_count k - current else counts k

  unfoldable pub compute_material : C.Play → MaterialScore × CapturedPieces
  unfolding total_on count_on captures_of
  compute_material g =
      let p = C.position g in
      let c = captures_of (C.positions g) (C.moves g) in
      (
        record { white = total_on white_side p squares; black = total_on black_side p squares },
        record c {
          black = with_missing white_side p c.black;
          white = with_missing black_side p c.white;
        },
      )
