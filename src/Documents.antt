-- ===== src/Documents.antt =====
-- The JSON documents that the program keeps in Redis: internal/pvpchess/types.go (Game) and
-- internal/pvpchan/types.go (ChannelMeta). A document is kept decoded. Reading one as the other
-- type fills the fields whose JSON names agree and leaves the others at Go's zero value.
use cheese_kakao_talk_bot.Prelude.{ℕ, String, List, []}

-- `unset` is the empty string, the zero value of the Go string type.
pub data Color : Type 0 where
  white black unset : Color

pub data Status : Type 0 where
  active finished resigned draw aborted unset : Status

pub record Game : Type 0 where
  pub id : String
  pub fen : String
  pub moves_uci : List String
  pub moves_san : List String
  pub turn : Color
  pub status : Status
  pub white_id : String
  pub white_name : String
  pub black_id : String
  pub black_name : String
  pub origin_room : String
  pub resolve_room : String
  pub created_at : ℕ
  pub updated_at : ℕ
  pub winner : String
  pub outcome : String

pub data ChannelState : Type 0 where
  lobby active finished aborted unset : ChannelState

pub record ChannelMeta : Type 0 where
  pub id : String
  pub state : ChannelState
  pub created_at : ℕ
  pub creator_id : String
  pub creator_name : String
  pub creator_room : String
  pub white_id : String
  pub white_name : String
  pub black_id : String
  pub black_name : String
  pub game_id : String

-- `blank` is the placeholder `{}` that reserves a channel code.
pub data Doc : Type 0 where
  game : Game → Doc
  meta : ChannelMeta → Doc
  blank : Doc

abbrev zero_game : Game
zero_game = record {
  id = "";
  fen = "";
  moves_uci = [];
  moves_san = [];
  turn = Color.unset;
  status = Status.unset;
  white_id = "";
  white_name = "";
  black_id = "";
  black_name = "";
  origin_room = "";
  resolve_room = "";
  created_at = 0;
  updated_at = 0;
  winner = "";
  outcome = "";
}

abbrev zero_meta : ChannelMeta
zero_meta = record {
  id = "";
  state = ChannelState.unset;
  created_at = 0;
  creator_id = "";
  creator_name = "";
  creator_room = "";
  white_id = "";
  white_name = "";
  black_id = "";
  black_name = "";
  game_id = "";
}

-- json.Unmarshal(raw, &g) for `var g Game`
unfoldable pub as_game : Doc → Game
as_game (game g) = g
as_game (meta m) = record zero_game {
  id = m.id;
  white_id = m.white_id;
  white_name = m.white_name;
  black_id = m.black_id;
  black_name = m.black_name;
  created_at = m.created_at;
}
as_game blank = zero_game

-- json.Unmarshal(raw, &m) for `var m ChannelMeta`
unfoldable pub as_meta : Doc → ChannelMeta
as_meta (meta m) = m
as_meta (game g) = record zero_meta {
  id = g.id;
  white_id = g.white_id;
  white_name = g.white_name;
  black_id = g.black_id;
  black_name = g.black_name;
  created_at = g.created_at;
}
as_meta blank = zero_meta

-- A row of the table pvp_games, as far as it is modelled: the game, the result token, the PGN
-- result and the method that are written for it.
pub record Row : Type 0 where
  pub played : Game
  pub result : String
  pub pgn_result : String
  pub method : String
