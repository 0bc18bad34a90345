-- ===== src/PvpChess.antt =====
-- The PvP games: internal/pvpchess/manager.go and the result token of repository.go. A game is a
-- document under its key in Redis, and a set for each player lists the ids of his games.
pub mod Games
pub mod Create
pub mod Moves
pub mod Resign
pub mod Keeps
pub mod Actions
pub mod Rules
pub mod Effects
pub mod Replay
pub mod Stuck
