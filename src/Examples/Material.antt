-- ===== src/Examples/Material.antt =====
-- Material and captured pieces at concrete inputs.
use cheese_kakao_talk_bot.Prelude.{◌≡◌, refl, [], ◌∷◌}
use cheese_kakao_talk_bot.Presets.Types.{pos}
use cheese_kakao_talk_bot.ChessLib.{white_side, black_side, pawn, knight, queen}
use cheese_kakao_talk_bot.Material.{
  CapturedPieces, MaterialScore, recent, compute_material, captured_value,
}
use cheese_kakao_talk_bot.Material.Shown.{first_kinds, recent-latest}
use cheese_kakao_talk_bot.Material.Accounts.{Accounts}
use cheese_kakao_talk_bot.Examples.Chess.{lenient}

-- White took a pawn, a knight and a queen, in this order.
abbrev taken : CapturedPieces
taken = record {
  white = λ k. 0;
  black = λ k. 0;
  white_order = pawn ∷ knight ∷ queen ∷ [];
  black_order = [];
}

latest_two : recent taken white_side (pos 2) ≡ queen ∷ knight ∷ []
unfolding recent
latest_two = refl

recent-latest_example : recent taken white_side (pos 2) ≡ first_kinds 2 (queen ∷ knight ∷ pawn ∷ [])
unfolding recent
recent-latest_example = recent-latest taken white_side 2

-- A single rook stands on the board.
abbrev lonely : MaterialScore × CapturedPieces
lonely = compute_material lenient ("e2e4" ∷ [])

lonely_rook : lonely.0.white ≡ 5
unfolding compute_material
lonely_rook = refl

lost_value : captured_value lonely.0 black_side ≡ pos 34
unfolding captured_value compute_material
lost_value = refl

lost_pawns : lonely.1.black pawn ≡ 8
unfolding compute_material
lost_pawns = refl
