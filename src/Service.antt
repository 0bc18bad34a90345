-- ===== src/Service.antt =====
-- The single-player service, internal/service/chess/service.go.
pub mod Types
pub mod State
pub mod Environment
pub mod Labels
pub mod Rating
pub mod Profiles
pub mod Sessions
pub mod Finish
pub mod Assist
pub mod Play
pub mod Manage
pub mod Triples
pub mod Keeping
pub mod Counted
pub mod Replays
pub mod Steps
pub mod Sane
pub mod Kept
pub mod Playing
pub mod Managing
pub mod Requests
pub mod Turns
pub mod Effects
pub mod Once
pub mod Timeouts
pub mod Undone
