-- ===== src/Lib.antt =====
-- Verification of Cheese-KakaoTalk-bot, a chess bot for KakaoTalk rooms written in Go.
--
-- The bot (cmd/chess-bot) reads chat commands and calls the managers of its packages. Modelled are
-- the games between two players (internal/pvpchess), the channels in which two players meet
-- (internal/pvpchan), the single-player service (internal/service/chess/service.go) with its
-- repository in memory, the difficulty presets of the engine (internal/chess/preset.go, limits.go),
-- the pool of engine sessions (internal/chess/uci/pool.go), the choice of the engine's move
-- (internal/chess/humanizer.go, engine.go), and what the handlers read of a message
-- (cmd/chess-bot/main.go). The two managers keep their state in Redis: games as JSON documents under
-- pvp:game:<id>, channels under ch:<code>, and sets of ids and codes that index them. A channel's
-- second participant makes the channel manager create a game through the game manager.
--
--   Prelude     names of the libraries passed on, Boolean tests, small lemmas
--   Text        strings.TrimSpace and strings.ToLower, with Laws
--   Documents   the JSON documents: Game and Status of internal/pvpchess/types.go, ChannelMeta of
--               internal/pvpchan/types.go; reading one kind as the other
--   Errors      the errors of the packages, and results
--   Redis       the server as an interface: an abstract database, the commands that the program
--               sends, and the laws of their replies; Redis/Memory is one that meets the laws
--   Action      Go code that talks to Redis: a state and error monad over a world of the database,
--               the rows written to pvp_games, and events; each command takes an event, which says
--               what other clients did before it and whether it was sent and answered. WATCH, MULTI
--               and EXEC are `exec`, which a touched key refuses. Action/Ensures, Commands, Stored,
--               Answers: rules for invariants under such interference
--   ChessLib    the chess library github.com/corentings/chess/v2 as an interface
--   PvpChess    the game manager (internal/pvpchess/manager.go): Games (save, get, the indexes, the
--               lookups, persistIfFinal with SaveResult of repository.go), Create
--               (CreateGameFromChallenge), Moves (PlayMove, PlayMoveByRoom), Resign (Resign,
--               ResignByRoom); and for proofs Keeps, Actions, Rules, Effects, Replay, Stuck
--   PvpChan     the channel manager: Store (internal/pvpchan/store_redis.go), Make, Join, Lists (the
--               lookups of manager.go); and for proofs Keeps, Keeps/Joins, Reserve,
--               Capacity, Waiting
--   Calls       histories: sequences of the calls above, as the command handler makes them; Keys,
--               Invariant, Frozen hold what every history keeps
--   Presets     Types, Tokens, Validate, Defaults, Registry, Go (the presets and limits.go); and for
--               proofs Laws, Bounds, Parts, Safe, Commands
--   Memrepo     the in-memory repository (internal/service/chess/memrepo.go, internal/domain/
--               chess.go): maps as association lists, with Recent (GetRecentGames), Laws, Order
--   Integers    sums and differences of Go's int
--   Material    computeMaterial, MaterialScore and CapturedPieces (internal/service/chess/
--               service.go), with Accounts, Shown; a rank below a board stays at its first rank
--   Service     the single-player service: Types, State (the cache and the repository as maps, a
--               state and error monad in which each call of them takes a fate: it succeeds, is
--               dropped, or takes effect and its answer is lost), Environment (the libraries, the
--               tables and the engine it is run with), Labels, Rating (applyGameResult), Profiles
--               (applyPresetStyle, fetchProfile), Sessions (loadSession to applyPlayerName), Finish
--               (persistFinishedGame, finishIfNeeded), Assist, Play, Manage (StartSession and the
--               other calls), Requests (sequences of calls); and for proofs Triples, Keeping,
--               Counted, Replays, Steps, Sane, Kept, Playing, Managing, Turns, Effects, Once,
--               Undone, Timeouts
--   Pool        the pool of engine sessions as a step relation: a step is a critical section, a
--               channel operation or a call of the engine, by any of the clients; a session is
--               released once, by the client that has it; with Count, Steps (whose step it
--               is), Semaphore, Bounds, Progress
--   Humanizer   saturatingAdd (internal/chess/humanizer.go), with Wraps, and Select
--               (SelectCandidate), with Primary
--   Openings    moves of the opening catalog (internal/chess/engine.go): catalogTokens,
--               selectCatalogMove, applyPolyglotMove, with Weights, Forced
--   Rooms       room, user and text of a message, roomAllowed, prioritizeRooms
--               (cmd/chess-bot/main.go), with Allowed, Prioritized
--   SeeMore     the padding of long messages and the removal of a repeated header (internal/util/
--               kakao.go), with Stripped
--   Examples    the theorems at concrete inputs, with a toy chess library and Redis in memory
--
-- How the model corresponds to the code. A function of the source has the same name in snake case;
-- its transaction is a pure function of the document that is read (play_body, resign_body) run by
-- update_game. PlayMove and PlayMoveByRoom, and the two forms of Resign, differ in their room test
-- alone, which is an argument. Loops over lists are structural recursions; the five rounds in which
-- Make draws a code are a recursion on their number, so no fuel is used. Random numbers, ids and
-- instants are arguments. A Go int is an integer, except in saturatingAdd and
-- evaluationTimeout, which wrap around in 64 bits; a float64 is a value of an abstract arithmetic.
-- The tables of unicode.ToLower past ASCII are the argument `beyond`.
--
-- Assumed of code outside the repository: the documented replies of Redis (the fields of `Redis`),
-- that PushNotationMove decodes a text and makes the move (push_uci_lem), where a theorem names
-- IsCoherent, that the UCI text of a move made by SAN makes it again, and where it names RoundTrips,
-- that the UCI text of a move that was read decodes to the move. Expiry of keys is what other clients may do.
--
-- A call of the service reads the clock several times; here it is one instant. A nil payload or
-- profile does not come up or is `none`. The sessions and profiles of the cache are two maps, since
-- their keys have different prefixes; that an entry expires is not modelled there.
--
-- Instants are numbers; the pointers of the in-memory repository are values.
--
-- Not modelled: the dialogue with an engine process and the search, applyOpeningPreferences, the files
-- and the lookup of the opening book, the parsing of chat commands, the client of the cache, SQL,
-- chat transport, rendering and formatting, material scores in the answers of the service; logging;
-- the PGN text of a finished game between two players; mutexes of the preset registry, whose
-- functions each hold the lock throughout.
mod Prelude
pub mod Text
pub mod Documents
pub mod Errors
pub mod Redis
pub mod Action
pub mod ChessLib
pub mod PvpChess
pub mod PvpChan
pub mod Presets
pub mod Memrepo
pub mod Humanizer
pub mod Integers
pub mod Material
pub mod Service
pub mod Pool
pub mod Openings
pub mod Rooms
pub mod SeeMore
pub mod Calls
mod Examples
